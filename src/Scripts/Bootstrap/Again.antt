-- ===== src/Scripts/Bootstrap/Again.antt =====
-- What a second run of `bootstrap` does, and one that does not return True.
use specter_cloud.Prelude.{
  sym, subst, ◌≡◌, ◌≢◌, ◌∙◌, refl, ap, inl, inr, text_eq, Bool, true, false, some, [], ◌∷◌, ◌++◌,
  scalar, scalar-none, scalar-append_none, ==_refl,
}
use mathlib.Core.List.{append_assoc}
use specter_cloud.Platform.{Platform}
use specter_cloud.Models.{Role, UserRole}
use specter_cloud.Store.{Db, State, Result, ok, open_session, with_session, with_session_lem}
use specter_cloud.Permissions.{admin}
use specter_cloud.Scripts.Bootstrap.{
  Uuid, Setup, role_named, active_grant, is_active_grant, unless_granted, with_admin_role,
  bootstrap, new_grant,
}
use specter_cloud.Scripts.Bootstrap.Ends.{Bootstrapped, Ends, failed, idle, worked, bootstrap-Ends}

module _ {platform : Platform} {setup : Setup} {db db' : Db}
    (b : Bootstrapped platform setup db db') where
  pub Bootstrapped-roles : (db'.roles ≡ db.roles)
  Bootstrapped-roles =
      ap (λ (d : Db). d.roles) b.result
      ∙ elim b.base_is [ inl e ↦ ap (λ (d : Db). d.roles) e | inr e ↦ ap (λ (d : Db). d.roles) e ]

  pub Bootstrapped-user_roles :
      db'.user_roles
      ≡ (db.user_roles ++ new_grant setup b.admin_role ∷ [])
        ++ new_grant setup b.developer_role ∷ []
  Bootstrapped-user_roles =
      ap (λ (d : Db). d.user_roles) b.result
      ∙ ap
          (λ gs. (gs ++ new_grant setup b.admin_role ∷ []) ++ new_grant setup b.developer_role ∷ [])
          (elim b.base_is [
            | inl e ↦ ap (λ (d : Db). d.user_roles) e
            | inr e ↦ ap (λ (d : Db). d.user_roles) e
          ])

  granted : active_grant setup.org_id b.admin_role.id db' ≡ some (new_grant setup b.admin_role)
  unfolding active_grant scalar
  granted =
      let p = is_active_grant setup.org_id b.admin_role.id in
      let g = new_grant setup b.admin_role in
      ap (scalar p) Bootstrapped-user_roles
      ∙ ap (scalar p) (append_assoc db.user_roles (g ∷ []) (new_grant setup b.developer_role ∷ []))
      ∙ scalar-append_none p db.user_roles _ (scalar-none p db.user_roles b.no_grant)
      ∙ rw (==_refl setup.org_id, ==_refl b.admin_role.id) refl

-- A run that finds an active grant of the admin role does nothing.
already_granted :
    (platform : Platform) (setup : Setup) (db : Db) (role : Role) (g : UserRole)
    → role_named admin db ≡ some role
    → active_grant setup.org_id role.id db ≡ some g
    → bootstrap platform setup (open_session db) ≡ (ok false, open_session db)
unfolding bootstrap with_admin_role unless_granted
already_granted platform setup db role g found e =
    ap (λ o. with_admin_role platform setup o (open_session db)) found
    ∙ ap (λ o. unless_granted platform setup role o (open_session db)) e

Ends-Bootstrapped :
    {platform : Platform} {setup : Setup} {db : Db} {o : Result Bool × State}
    → Ends platform setup db o
    → o.0 ≡ ok true
    → Bootstrapped platform setup db o.1.committed
Ends-Bootstrapped (failed e r c) h = absurd (cc (r, h))
Ends-Bootstrapped (idle role g f e r c) h = absurd (cc (r, h))
Ends-Bootstrapped (worked r b) h = b

pub bootstrap-Bootstrapped :
    (platform : Platform) (setup : Setup) (db : Db)
    → (with_session (bootstrap platform setup) db).0 ≡ ok true
    → Bootstrapped platform setup db (with_session (bootstrap platform setup) db).1
unfolding with_session
bootstrap-Bootstrapped platform setup db h = Ends-Bootstrapped (bootstrap-Ends platform setup db) h

-- After a run that returns True, every further run for the organization returns False and changes nothing,
-- whatever its other arguments.
pub bootstrap_again :
    (platform : Platform) (setup again : Setup) (db : Db)
    → (with_session (bootstrap platform setup) db).0 ≡ ok true
    → again.org_id ≡ setup.org_id
    → with_session (bootstrap platform again) (with_session (bootstrap platform setup) db).1
      ≡ (ok false, (with_session (bootstrap platform setup) db).1)
unfolding role_named
bootstrap_again platform setup again db h same_org =
    let b = bootstrap-Bootstrapped platform setup db h in
    let db' = (with_session (bootstrap platform setup) db).1 in
    with_session_lem (bootstrap platform again) db' (
      already_granted platform again db' b.admin_role (new_grant setup b.admin_role)
        (ap (scalar (λ r. text_eq r.name admin)) (Bootstrapped-roles b) ∙ b.found_admin)
        (ap (λ i. active_grant i b.admin_role.id db') same_org ∙ granted b))

unchanged_unless :
    {platform : Platform} {setup : Setup} {db : Db} {o : Result Bool × State}
    → Ends platform setup db o
    → o.0 ≢ ok true
    → o.1.committed ≡ db
unchanged_unless (failed e r c) h = c
unchanged_unless (idle role g f e r c) h = c
unchanged_unless (worked r b) h = absurd (h r)

-- A run that does not return True leaves the tables as they were, the error after the insertion of the
-- organization or of the user included.
pub bootstrap_unchanged :
    (platform : Platform) (setup : Setup) (db : Db)
    → (with_session (bootstrap platform setup) db).0 ≢ ok true
    → (with_session (bootstrap platform setup) db).1 ≡ db
unfolding with_session
bootstrap_unchanged platform setup db h = unchanged_unless (bootstrap-Ends platform setup db) h

-- The organization has an active grant of the admin role.
pub record HasGrant (org_id : Uuid) (db : Db) : Type 0 where
  pub role : Role
  pub grant : UserRole
  pub found_role : role_named admin db ≡ some role
  pub found_grant : active_grant org_id role.id db ≡ some grant

Ends-HasGrant :
    {platform : Platform} {setup : Setup} {db : Db} {o : Result Bool × State} {b : Bool}
    → Ends platform setup db o
    → o.0 ≡ ok b
    → HasGrant setup.org_id o.1.committed
unfolding role_named
Ends-HasGrant (failed e r c) h = absurd (cc (r, h))
Ends-HasGrant {setup} (idle role g f e r c) h =
    subst (HasGrant setup.org_id) (sym c)
      (record { role = role; grant = g; found_role = f; found_grant = e })
Ends-HasGrant {setup} (worked r b) h = record {
  role = b.admin_role;
  grant = new_grant setup b.admin_role;
  found_role = ap (scalar (λ r. text_eq r.name admin)) (Bootstrapped-roles b) ∙ b.found_admin;
  found_grant = granted b;
}

-- After a run that returns, the organization has an active grant of the admin role.
pub bootstrap-HasGrant :
    (platform : Platform) (setup : Setup) (db : Db) {b : Bool}
    → (with_session (bootstrap platform setup) db).0 ≡ ok b
    → HasGrant setup.org_id (with_session (bootstrap platform setup) db).1
unfolding with_session
bootstrap-HasGrant platform setup db h = Ends-HasGrant (bootstrap-Ends platform setup db) h

-- Where there is such a grant, a run returns False and changes nothing.
pub HasGrant-idle :
    (platform : Platform) (setup : Setup) (db : Db)
    → HasGrant setup.org_id db
    → with_session (bootstrap platform setup) db ≡ (ok false, db)
HasGrant-idle platform setup db g =
    with_session_lem (bootstrap platform setup) db
      (already_granted platform setup db g.role g.grant g.found_role g.found_grant)
