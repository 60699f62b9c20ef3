-- ===== src/Scripts/Bootstrap/Ends.antt =====
-- How a run of `bootstrap` ends.
use specter_cloud.Prelude.{
  ◌≡◌, ◌∙◌, refl, ap, sym, subst, ◌⊎◌, inl, inr, Text, strip, non_empty, Bool, true, false, ◌&&◌,
  Option, none, some, [], scalar-some, Any, Any-append_right, Any-map_fun, here, ==_iff, ◌==◌,
  if◌then◌else◌, length, leb,
}
use specter_cloud.Platform.{Platform}
use specter_cloud.Models.{Org, User, Role, UserRole}
use specter_cloud.Store.{
  Db, State, Error, value_error, integrity_error, data_error, Result, ok, err, pure, raise, query,
  flush-clean, commit, commit-clean, clean, open_session, after, ◌>>=◌, ◌>>◌,
}
use specter_cloud.Permissions.{admin, developer}
use specter_cloud.Password.{hash_password}
use specter_cloud.Scripts.Bootstrap.{
  Setup, role_named, active_grant, get_org, user_with_email, inserting, specter_org, append_org,
  org_refers, insert_org, admin_user, append_user, user_fits, user_refers, insert_user, new_grant,
  append_grant, grant_refers, insert_grant, grant_both, add_admin, ensure_org, unless_granted,
  with_admin_role, bootstrap,
}

module _ (platform : Platform) (setup : Setup) (db : Db) where
  -- the tables of a run that did its work, by the tables that it found
  pub record Bootstrapped (db' : Db) : Type 0 where
    pub admin_role : Role
    pub found_admin : role_named admin db ≡ some admin_role
    pub developer_role : Role
    pub found_developer : role_named developer db ≡ some developer_role
    pub no_grant : active_grant setup.org_id admin_role.id db ≡ none
    pub base : Db
    pub base_is : (base ≡ db) ⊎ (base ≡ append_org (specter_org setup) db)
    pub has_org : Any (λ o. o.id ≡ setup.org_id) base.orgs
    pub fresh_email : user_with_email (platform.lower (strip setup.email)) base ≡ none
    pub password_hash : Text
    pub hashed : password_hash ≡ platform.argon2_hash setup.salt setup.password
    pub result :
        db'
        ≡ append_grant (new_grant setup developer_role) (
            append_grant (new_grant setup admin_role) (
              append_user
                (admin_user setup
                  (platform.lower (strip setup.email))
                  password_hash
                  (strip setup.name))
                base))

  pub data Ends (o : Result Bool × State) : Type 0 where
    failed : (e : Error) → o.0 ≡ err e → o.1.committed ≡ db → Ends o
    idle :
        (role : Role) (g : UserRole)
        → role_named admin db ≡ some role
        → active_grant setup.org_id role.id db ≡ some g
        → o.0 ≡ ok false
        → o.1.committed ≡ db
        → Ends o
    worked : o.0 ≡ ok true → Bootstrapped o.1.committed → Ends o

-- An insertion succeeds with the row appended, or undoes the transaction.
inserted_or_undone :
    (P : Result (Unit {0}) × State → Type 0) (fits accepted : Bool) (append : Db → Db)
    (before now : Db)
    → P (ok tt, clean before (append now) [])
    → P (err integrity_error, clean before before [])
    → P (err data_error, clean before before [])
    → P (inserting fits accepted append (clean before now []))
inserted_or_undone P true true append before now fine integrity long = fine
inserted_or_undone P true false append before now fine integrity long = integrity
inserted_or_undone P false accepted append before now fine integrity long = long

module _ (platform : Platform) (setup : Setup) (db : Db) (role : Role)
    (found : role_named admin db ≡ some role)
    (no_grant : active_grant setup.org_id role.id db ≡ none) (base : Db)
    (base_is : (base ≡ db) ⊎ (base ≡ append_org (specter_org setup) db))
    (has_org : Any (λ o. o.id ≡ setup.org_id) base.orgs) where
  abbrev End : Result Bool × State → Type 0
  End = Ends platform setup db

  base-roles : role_named developer base ≡ role_named developer db
  unfolding role_named
  base-roles = elim base_is [
    | inl e ↦ ap (role_named developer) e
    | inr e ↦ ap (role_named developer) e
  ]

  module _ (fresh_email : user_with_email (platform.lower (strip setup.email)) base ≡ none)
      (password_hash : Text)
      (hashed : password_hash ≡ platform.argon2_hash setup.salt setup.password) where
    abbrev user : User
    user = admin_user setup (platform.lower (strip setup.email)) password_hash (strip setup.name)

    abbrev with_user : Db
    with_user = append_user user base

    grant_both-Ends :
        (o : Option Role)
        → role_named developer db ≡ o
        → End (grant_both setup role o (clean db with_user []))
    unfolding grant_both insert_grant
    grant_both-Ends none e = failed value_error refl refl
    grant_both-Ends (some dev) e =
        let first = new_grant setup role in
        let second = new_grant setup dev in
        let rest : Result (Unit {0}) × State → Result Bool × State =
          λ o. after (after (after o (λ _. insert_grant second)) (λ _. commit)) (λ _. pure true) in
        let last : Result (Unit {0}) × State → Result Bool × State =
          λ o. after (after o (λ _. commit)) (λ _. pure true) in
        let one = append_grant first with_user in
        let two = append_grant second one in
        inserted_or_undone (λ o. End (rest o)) true (grant_refers first with_user)
          (append_grant first) db with_user
          (inserted_or_undone (λ o. End (last o)) true (grant_refers second one)
            (append_grant second) db one
            (subst (λ o. End (after o (λ _. pure true))) (sym (commit-clean db two []))
              (worked refl (record {
                admin_role = role;
                found_admin = found;
                developer_role = dev;
                found_developer = e;
                no_grant = no_grant;
                base = base;
                base_is = base_is;
                has_org = has_org;
                fresh_email = fresh_email;
                password_hash = password_hash;
                hashed = hashed;
                result = refl;
              })))
            (failed integrity_error refl refl) (failed data_error refl refl))
          (failed integrity_error refl refl) (failed data_error refl refl)

    -- the user, and what follows
    insert_user-Ends : End (
        (insert_user user >> query (role_named developer) >>= grant_both setup role)
          (clean db base []))
    unfolding insert_user role_named
    insert_user-Ends =
        let rest : Result (Unit {0}) × State → Result Bool × State =
          λ o. after (after o (λ _. query (role_named developer))) (grant_both setup role) in
        subst
          (λ o. End (
            rest (
              after (after o (λ _. query (user_refers user)))
                (λ accepted. inserting (user_fits user) accepted (append_user user)))))
          (sym (flush-clean db base []))
          (inserted_or_undone (λ o. End (rest o)) (user_fits user) (user_refers user base)
            (append_user user) db base
            (grant_both-Ends (role_named developer base) (sym base-roles))
            (failed integrity_error refl refl) (failed data_error refl refl))

  add_admin-Ends :
      (o : Option User)
      → user_with_email (platform.lower (strip setup.email)) base ≡ o
      → End (add_admin platform setup role o (clean db base []))
  unfolding add_admin hash_password
  add_admin-Ends (some existing) f = failed value_error refl refl
  add_admin-Ends none f = by_password (non_empty setup.password)
    where
      rest : Result Text × State → Result Bool × State
      rest o = after o (λ password_hash.
          insert_user
            (admin_user setup (platform.lower (strip setup.email)) password_hash (strip setup.name))
          >> query (role_named developer)
          >>= grant_both setup role)

      by_password :
          (b : Bool)
          → End (
              rest (
                (if b
                    then pure (platform.argon2_hash setup.salt setup.password)
                    else raise value_error)
                  (clean db base [])))
      by_password true = insert_user-Ends f (platform.argon2_hash setup.salt setup.password) refl
      by_password false = failed value_error refl refl

module _ (platform : Platform) (setup : Setup) (db : Db) where
  unless_granted-Ends :
      (role : Role) (o : Option UserRole)
      → role_named admin db ≡ some role
      → active_grant setup.org_id role.id db ≡ o
      → Ends platform setup db (unless_granted platform setup role o (open_session db))
  unfolding unless_granted ensure_org insert_org get_org
  unless_granted-Ends role (some g) found e = idle role g found e refl refl
  unless_granted-Ends role none found e = by_org (get_org setup.org_id db) refl
    where
      rest : Result (Unit {0}) × State → Result Bool × State
      rest o =
          after (after o (λ _. query (user_with_email (platform.lower (strip setup.email)))))
            (add_admin platform setup role)

      by_org :
          (o : Option Org)
          → get_org setup.org_id db ≡ o
          → Ends platform setup db (rest (ensure_org setup o (open_session db)))
      by_org (some org) h =
          let (t, m) = scalar-some (λ o. o.id == setup.org_id) db.orgs h in
          add_admin-Ends platform setup db role found e db (inl refl)
            (Any-map_fun (λ o same. ap (λ (x : Org). x.id) same ∙ (==_iff org.id setup.org_id).0 t)
              m)
            (user_with_email (platform.lower (strip setup.email)) db) refl
      by_org none h =
          let org = specter_org setup in
          subst
            (λ o. Ends platform setup db (
              rest (
                after (after o (λ _. query (org_refers org))) (λ accepted.
                  inserting (leb (length org.name) 120 && leb (length org.slug) 60) accepted
                    (append_org org)))))
            (sym (flush-clean db db []))
            (inserted_or_undone (λ o. Ends platform setup db (rest o))
              (leb (length org.name) 120 && leb (length org.slug) 60) (org_refers org db)
              (append_org org) db db
              (add_admin-Ends platform setup db role found e (append_org org db) (inr refl)
                (Any-append_right db.orgs (here refl))
                (user_with_email (platform.lower (strip setup.email)) (append_org org db)) refl)
              (failed integrity_error refl refl) (failed data_error refl refl))

  pub bootstrap-Ends : Ends platform setup db (bootstrap platform setup (open_session db))
  unfolding bootstrap with_admin_role
  bootstrap-Ends = by_role (role_named admin db) refl
    where
      by_role :
          (o : Option Role)
          → role_named admin db ≡ o
          → Ends platform setup db (with_admin_role platform setup o (open_session db))
      by_role none h = failed value_error refl refl
      by_role (some role) h = unless_granted-Ends role _ h refl
