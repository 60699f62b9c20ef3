-- ===== src/Scripts/Commands/Starting.antt =====
-- How bootstrap_specter_org.py ends.
use specter_cloud.Prelude.{
  ◌≡◌, ◌≢◌, ◌∙◌, refl, inl, inr, Text, strip, non_empty, codes, true, false, Bool, Option, none,
  some, Any, Bool-cases,
}
use specter_cloud.Platform.{Platform}
use specter_cloud.Models.{Uuid, User}
use specter_cloud.Store.{
  integrity_error, data_error, multiple_results_found, http_exception, Db, Result, ok, err,
  with_session, value_error,
}
use specter_cloud.Permissions.{Permission, mission_write}
use specter_cloud.Rbac.{check_permission}
use specter_cloud.Scripts.Bootstrap.{Setup, bootstrap}
use specter_cloud.Scripts.Bootstrap.Again.{bootstrap_unchanged, HasGrant, bootstrap-HasGrant}
use specter_cloud.Scripts.Bootstrap.Rights.{bootstrap_rights}
use specter_cloud.Scripts.Commands.{
  Exit, printed, Environ, with_required, required_env, StartDraw, UuidText, complete_message,
  no_op_message, report, setup_of, start_at, bootstrap_main,
}

-- an active user with this address who is at home at the org and is allowed every permission but
-- mission:write there
pub record HasAdmin (email : Text) (org_id : Uuid) (db : Db) : Type 0 where
  pub user : User
  pub in_users : Any (λ u. u ≡ user) db.users
  pub email_same : user.email ≡ email
  pub at_home : user.org_id ≡ org_id
  pub active : user.is_active ≡ true
  pub allowed :
      (p : Permission) → p ≢ mission_write → (check_permission user p org_id db).allowed ≡ true

rights :
    (platform : Platform) (setup : Setup) (db : Db)
    → (with_session (bootstrap platform setup) db).0 ≡ ok true
    → HasAdmin
        (platform.lower (strip setup.email))
        setup.org_id
        (with_session (bootstrap platform setup) db).1
rights platform setup db h =
    let (user, m, email, home, active, allowed) = bootstrap_rights platform setup db h in
    record {
      user = user;
      in_users = m;
      email_same = email;
      at_home = home;
      active = active;
      allowed = allowed;
    }

module _ (platform : Platform) (uuid : UuidText) (env : Environ) (draw : StartDraw) (db : Db) where
  pub data Starts (r : Exit Text × Db) : Type 0 where
    failed_start : ((t : Text) → r.0 ≢ printed t) → r.1 ≡ db → Starts r
    no_op :
        (raw_id : Text) (org_id : Uuid)
        → env (codes "SPECTER_ORG_ID") ≡ some raw_id
        → non_empty raw_id ≡ true
        → uuid.parse raw_id ≡ some org_id
        → r.0 ≡ printed no_op_message
        → r.1 ≡ db
        → HasGrant org_id r.1
        → Starts r
    complete :
        (raw_id email : Text) (org_id : Uuid)
        → env (codes "SPECTER_ORG_ID") ≡ some raw_id
        → non_empty raw_id ≡ true
        → uuid.parse raw_id ≡ some org_id
        → env (codes "SPECTER_BOOTSTRAP_EMAIL") ≡ some email
        → r.0 ≡ printed (complete_message platform uuid org_id email)
        → HasGrant org_id r.1
        → HasAdmin (platform.lower (strip email)) org_id r.1
        → Starts r

  -- A required variable is there, or the process stops with the tables as they were.
  required_env-Starts :
      (name : Text) (k : Text → Exit Text × Db)
      → ((value : Text) → env name ≡ some value → non_empty value ≡ true → Starts (k value))
      → Starts (required_env env name db k)
  unfolding required_env
  required_env-Starts name k go = by_value (env name) refl
    where
      by_value : (o : Option Text) → env name ≡ o → Starts (with_required name o db k)
      by_value none e = failed_start (λ t h. cc) refl
      by_value (some value) e = elim (Bool-cases (non_empty value)) [
        | inl there ↦ rw there (go value e there)
        | inr empty ↦ rw empty (failed_start (λ t h. cc) refl)
      ]

  report-Starts :
      (raw_id email password name : Text) (org_id : Uuid)
      → env (codes "SPECTER_ORG_ID") ≡ some raw_id
      → non_empty raw_id ≡ true
      → uuid.parse raw_id ≡ some org_id
      → env (codes "SPECTER_BOOTSTRAP_EMAIL") ≡ some email
      → Starts (
          report
            (complete_message platform uuid org_id email)
            (with_session (bootstrap platform (setup_of org_id email password name draw)) db))
  report-Starts raw_id email password name org_id e t f g =
      by_outcome (with_session (bootstrap platform setup) db)
        (λ b. bootstrap-HasGrant platform setup db) (rights platform setup db)
        (bootstrap_unchanged platform setup db)
    where
      setup : Setup
      setup = setup_of org_id email password name draw

      unprinted :
          (o : Result Bool × Db)
          → ((t : Text) → (report (complete_message platform uuid org_id email) o).0 ≢ printed t)
          → (report (complete_message platform uuid org_id email) o).1 ≡ o.1
          → o.0 ≢ ok true
          → (o.0 ≢ ok true → o.1 ≡ db)
          → Starts (report (complete_message platform uuid org_id email) o)
      unprinted o silent same_tables h unchanged = failed_start silent (same_tables ∙ unchanged h)

      by_outcome :
          (o : Result Bool × Db)
          → ((b : Bool) → o.0 ≡ ok b → HasGrant org_id o.1)
          → (o.0 ≡ ok true → HasAdmin (platform.lower (strip email)) org_id o.1)
          → (o.0 ≢ ok true → o.1 ≡ db)
          → Starts (report (complete_message platform uuid org_id email) o)
      by_outcome (ok true, d) granted admin unchanged =
          complete raw_id email org_id e t f g refl (granted _ refl) (admin refl)
      by_outcome (ok false, d) granted admin unchanged =
          no_op raw_id org_id e t f refl (unchanged (λ h. cc)) (granted _ refl)
      by_outcome (err value_error, d) granted admin unchanged =
          unprinted _ (λ t h. cc) refl (λ h. cc) unchanged
      by_outcome (err (http_exception n t), d) granted admin unchanged =
          unprinted _ (λ t h. cc) refl (λ h. cc) unchanged
      by_outcome (err integrity_error, d) granted admin unchanged =
          unprinted _ (λ t h. cc) refl (λ h. cc) unchanged
      by_outcome (err data_error, d) granted admin unchanged =
          unprinted _ (λ t h. cc) refl (λ h. cc) unchanged
      by_outcome (err multiple_results_found, d) granted admin unchanged =
          unprinted _ (λ t h. cc) refl (λ h. cc) unchanged

  start_at-Starts :
      (raw_id : Text) (o : Option Uuid)
      → env (codes "SPECTER_ORG_ID") ≡ some raw_id
      → non_empty raw_id ≡ true
      → uuid.parse raw_id ≡ o
      → Starts (start_at platform uuid env draw db o)
  unfolding start_at
  start_at-Starts raw_id none e t f = failed_start (λ t h. cc) refl
  start_at-Starts raw_id (some org_id) e t f = required_env-Starts _ _ (λ email g _.
      required_env-Starts _ _
        (λ password _ _. report-Starts raw_id email password _ org_id e t f g))

  pub bootstrap_main-Starts : Starts (bootstrap_main platform uuid env draw db)
  unfolding bootstrap_main
  bootstrap_main-Starts =
      required_env-Starts _ _ (λ raw_id e t. start_at-Starts raw_id (uuid.parse raw_id) e t refl)
