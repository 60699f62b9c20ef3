-- ===== src/Scripts/Bootstrap/Fresh.antt =====
-- The first run of `bootstrap`, on the tables that the migrations leave.
use specter_cloud.Prelude.{
  ◌≡◌, ◌≢◌, ◌∙◌, refl, ap, inl, inr, Text, strip, non_empty, Bool, true, false, some, List, [], any,
  any-true, scalar, scalar-some, ◌==◌, ==_iff, ==_refl, Bool-cases, if◌then◌else◌,
}
use specter_cloud.Platform.{Platform}
use specter_cloud.Models.{Role, User}
use specter_cloud.Store.{
  Db, ok, Action, raise, value_error, ◌>>=◌, ◌>>◌, after, pure, query, commit, commit-clean, flush,
  clean, refused, open_session, with_session, role_exists,
}
use specter_cloud.Permissions.{admin, developer}
use specter_cloud.Password.{hash_password}
use specter_cloud.Scripts.Bootstrap.{
  Setup, role_named, active_grant, get_org, user_with_email, specter_org, append_org, org_refers,
  insert_org, admin_user, append_user, user_fits, user_refers, insert_user, new_grant, append_grant,
  grant_refers, insert_grant, grant_both, add_admin, ensure_org, unless_granted, with_admin_role,
  bootstrap,
}

-- the tables after the migrations: only roles
abbrev pub migrated : List Role → Db
migrated roles = record {
  orgs = [];
  drones = [];
  drone_api_keys = [];
  users = [];
  roles = roles;
  user_roles = [];
  sessions = [];
  audit_log = [];
}

role_there :
    (name : Text) (db : Db) (r : Role) → role_named name db ≡ some r → role_exists db r.id ≡ true
unfolding role_named
role_there name db r found =
    any-true (λ x. x.id == r.id) (scalar-some _ db.roles found).1 (==_refl r.id)

module _ (platform : Platform) (setup : Setup) (roles : List Role) (a d : Role)
    (found_admin : role_named admin (migrated roles) ≡ some a)
    (found_developer : role_named developer (migrated roles) ≡ some d) (distinct : a.id ≢ d.id)
    (some_password : non_empty setup.password ≡ true) where
  abbrev hash : Text
  hash = platform.argon2_hash setup.salt setup.password

  abbrev first : User
  first = admin_user setup (platform.lower (strip setup.email)) hash (strip setup.name)

  abbrev with_org : Db
  with_org = append_org (specter_org setup) (migrated roles)

  abbrev with_user : Db
  with_user = append_user first with_org

  abbrev with_grant : Db
  with_grant = append_grant (new_grant setup a) with_user

  abbrev db : Db
  db = migrated roles

  org_run : insert_org (specter_org setup) (open_session db) ≡ (ok tt, clean db with_org [])
  unfolding insert_org org_refers any flush refused
  org_run = refl

  user_run :
      user_fits first ≡ true
      → insert_user first (clean db with_org []) ≡ (ok tt, clean db with_user [])
  unfolding insert_user user_refers any flush refused strip
  user_run fits = rw (fits, ==_refl setup.org_id) refl

  first_grant_run :
      insert_grant (new_grant setup a) (clean db with_user []) ≡ (ok tt, clean db with_grant [])
  unfolding insert_grant grant_refers any
  first_grant_run =
      rw (==_refl setup.org_id, ==_refl setup.user_id, role_there admin db a found_admin) refl

  abbrev with_both : Db
  with_both = append_grant (new_grant setup d) with_grant

  apart : (a.id == d.id) ≡ false
  apart = elim (Bool-cases (a.id == d.id)) [
    | inl same ↦ absurd (distinct ((==_iff a.id d.id).0 same))
    | inr other ↦ other
  ]

  second_grant_run :
      insert_grant (new_grant setup d) (clean db with_grant []) ≡ (ok tt, clean db with_both [])
  unfolding insert_grant grant_refers any
  second_grant_run =
      rw
        (
          ==_refl setup.org_id,
          ==_refl setup.user_id,
          apart,
          role_there developer db d found_developer,
        )
        refl

  grants_run :
      grant_both setup a (some d) (clean db with_user []) ≡ (ok true, open_session with_both)
  unfolding grant_both
  grants_run =
      ap
        (λ o.
          after (after (after o (λ _. insert_grant (new_grant setup d))) (λ _. commit))
            (λ _. pure true))
        first_grant_run
      ∙ ap (λ o. after (after o (λ _. commit)) (λ _. pure true)) second_grant_run
      ∙ ap (λ o. after o (λ _. pure true)) (commit-clean db with_both [])

  abbrev address : Text
  address = platform.lower (strip setup.email)

  -- what follows the hash
  abbrev from_hash : Text → Action Bool
  from_hash h =
      insert_user (admin_user setup address h (strip setup.name))
      >> query (role_named developer)
      >>= grant_both setup a

  bootstrap_run :
      user_fits first ≡ true
      → bootstrap platform setup (open_session db) ≡ (ok true, open_session with_both)
  unfolding bootstrap with_admin_role unless_granted active_grant get_org user_with_email ensure_org
      add_admin hash_password scalar
  bootstrap_run fits =
      ap (λ o. with_admin_role platform setup o (open_session db)) found_admin
      ∙ ap
          (λ o. after (after o (λ _. query (user_with_email address))) (add_admin platform setup a))
          org_run
      ∙ ap
          (λ (b : Bool).
            after ((if b then pure hash else raise value_error) (clean db with_org [])) from_hash)
          some_password
      ∙ ap (λ o. after (after o (λ _. query (role_named developer))) (grant_both setup a))
          (user_run fits)
      ∙ ap (λ o. grant_both setup a o (clean db with_user [])) found_developer
      ∙ grants_run

-- The first run after the migrations returns True: on tables with nothing but the roles, among them an admin and a
-- developer role of different ids, with a password that is not empty and values that fit their columns.
pub fresh_bootstrap :
    (platform : Platform) (setup : Setup) (roles : List Role) (a d : Role)
    → role_named admin (migrated roles) ≡ some a
    → role_named developer (migrated roles) ≡ some d
    → a.id ≢ d.id
    → non_empty setup.password ≡ true
    → user_fits (
        admin_user setup
          (platform.lower (strip setup.email))
          (platform.argon2_hash setup.salt setup.password)
          (strip setup.name))
      ≡ true
    → (with_session (bootstrap platform setup) (migrated roles)).0 ≡ ok true
unfolding with_session
fresh_bootstrap platform setup roles a d found_admin found_developer distinct some_password fits =
    ap (λ o. o.0)
      (bootstrap_run platform setup roles a d found_admin found_developer distinct some_password
        fits)
