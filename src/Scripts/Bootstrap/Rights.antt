-- ===== src/Scripts/Bootstrap/Rights.antt =====
-- What the first administrator may do.
use specter_cloud.Prelude.{
  ◌≡◌, ◌≢◌, ◌∙◌, refl, ap, sym, subst, ◌⊎◌, inl, inr, strip, text_eq, text_eq→eq, true, scalar-some,
  Any, here, Any-witness, Any-append_left, Any-append_right, arith, any,
}
use specter_cloud.Platform.{Platform}
use specter_cloud.Models.{User, Role}
use specter_cloud.Store.{Db, ok, with_session}
use specter_cloud.Permissions.{
  Permission, mission_write, drone_read, telemetry_read, video_read, mission_read, user_invite,
  user_remove, user_assign_role, org_settings, audit_read, drone_configure,
  drone_configure_advanced, platform_audit_read, platform_org_manage, platform_drone_manage,
  dev_debug, roles_with_permission, admin, developer,
}
use specter_cloud.Permissions.Bundles.{is_in}
use specter_cloud.Rbac.{check_permission, grant_row, chain_row}
use specter_cloud.Rbac.Ancestors.{itself}
use specter_cloud.Rbac.Scope.{allowed_if_reached}
use specter_cloud.Scripts.Bootstrap.{Setup, role_named, bootstrap, new_grant, admin_user}
use specter_cloud.Scripts.Bootstrap.Ends.{Bootstrapped}
use specter_cloud.Scripts.Bootstrap.Again.{
  bootstrap-Bootstrapped, Bootstrapped-roles, Bootstrapped-user_roles,
}

-- Between them, the two roles have every permission but one.
admin_or_developer :
    (p : Permission)
    → p ≢ mission_write
    → (is_in admin (roles_with_permission p) ≡ true)
      ⊎ (is_in developer (roles_with_permission p) ≡ true)
unfolding roles_with_permission any
admin_or_developer drone_read h = inl refl
admin_or_developer telemetry_read h = inl refl
admin_or_developer video_read h = inl refl
admin_or_developer mission_read h = inl refl
admin_or_developer user_invite h = inl refl
admin_or_developer user_remove h = inl refl
admin_or_developer user_assign_role h = inl refl
admin_or_developer org_settings h = inl refl
admin_or_developer audit_read h = inl refl
admin_or_developer mission_write h = absurd (h refl)
admin_or_developer drone_configure h = inr refl
admin_or_developer drone_configure_advanced h = inr refl
admin_or_developer platform_audit_read h = inr refl
admin_or_developer platform_org_manage h = inr refl
admin_or_developer platform_drone_manage h = inr refl
admin_or_developer dev_debug h = inr refl

module _ {platform : Platform} {setup : Setup} {db db' : Db}
    (b : Bootstrapped platform setup db db') (p : Permission) (user : User)
    (own : user.id ≡ setup.user_id) where
  -- one of the two grants
  role-allowed :
      (role : Role)
      → Any (λ r. r ≡ role) db.roles
      → is_in role.name (roles_with_permission p) ≡ true
      → Any (λ g. g ≡ new_grant setup role) db'.user_roles
      → (check_permission user p setup.org_id db').allowed ≡ true
  role-allowed role m eligible mg =
      let (org, mo, at_org) = Any-witness b.has_org in
      let grant = new_grant setup role in
      allowed_if_reached db' user p setup.org_id (grant_row grant (chain_row 0 org) role) (record {
        grant = grant;
        role = role;
        org = org;
        in_user_roles = mg;
        in_roles = subst (λ rs. Any (λ r. r ≡ role) rs) (sym (Bootstrapped-roles b)) m;
        ancestor = itself (subst (λ (d : Db). Any (λ o. o ≡ org) d.orgs) (sym b.result) mo) at_org;
        within = omega arith;
        of_user = sym own;
        active = refl;
        at_org = at_org;
        of_role = refl;
        is_eligible = eligible;
        shown = refl;
      })

  grant_of_admin : Any (λ g. g ≡ new_grant setup b.admin_role) db'.user_roles
  grant_of_admin =
      subst (λ gs. Any (λ g. g ≡ new_grant setup b.admin_role) gs) (sym (Bootstrapped-user_roles b))
        (Any-append_left _ (Any-append_right db.user_roles (here refl)))

  grant_of_developer : Any (λ g. g ≡ new_grant setup b.developer_role) db'.user_roles
  grant_of_developer =
      subst (λ gs. Any (λ g. g ≡ new_grant setup b.developer_role) gs)
        (sym (Bootstrapped-user_roles b)) (Any-append_right _ (here refl))

  Bootstrapped-allowed :
      p ≢ mission_write → (check_permission user p setup.org_id db').allowed ≡ true
  unfolding role_named
  Bootstrapped-allowed other = elim (admin_or_developer p other) [
    | inl eligible ↦
        let (t, m) = scalar-some (λ r. text_eq r.name admin) db.roles b.found_admin in
        role-allowed b.admin_role m
          (ap (λ n. is_in n (roles_with_permission p)) (text_eq→eq b.admin_role.name admin t)
            ∙ eligible)
          grant_of_admin
    | inr eligible ↦
        let (t, m) = scalar-some (λ r. text_eq r.name developer) db.roles b.found_developer in
        role-allowed b.developer_role m
          (ap (λ n. is_in n (roles_with_permission p))
              (text_eq→eq b.developer_role.name developer t)
            ∙ eligible)
          grant_of_developer
  ]

-- After a run that returns True there is an active user with the normalized address, at home at the organization,
-- who is allowed every permission but mission:write there.
pub bootstrap_rights :
    (platform : Platform) (setup : Setup) (db : Db)
    → (with_session (bootstrap platform setup) db).0 ≡ ok true
    → (user : User) × Any (λ u. u ≡ user) (with_session (bootstrap platform setup) db).1.users
      × (user.email ≡ platform.lower (strip setup.email))
      × (user.org_id ≡ setup.org_id)
      × (user.is_active ≡ true)
      × ((p : Permission)
          → p ≢ mission_write
          → (check_permission user p setup.org_id
              (with_session (bootstrap platform setup) db).1).allowed
            ≡ true)
bootstrap_rights platform setup db h =
    let b = bootstrap-Bootstrapped platform setup db h in
    let user =
      admin_user setup (platform.lower (strip setup.email)) b.password_hash (strip setup.name) in
    (
      user,
      subst (λ (d : Db). Any (λ u. u ≡ user) d.users) (sym b.result)
          (Any-append_right b.base.users (here refl)),
      refl,
      refl,
      refl,
      λ p. Bootstrapped-allowed b p user refl,
    )
