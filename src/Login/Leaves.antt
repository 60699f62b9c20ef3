-- ===== src/Login/Leaves.antt =====
-- What an attempt leaves of the tables.
use specter_cloud.Prelude.{
  ap, ◌≡◌, refl, ◌<◌, inl, inr, non_empty, Bool, true, false, Option, none, some, arith, ltb,
  if◌then◌else◌, Bool-cases,
}
use specter_cloud.Platform.{Platform}
use specter_cloud.Models.{Session, Datetime, User}
use specter_cloud.Store.{Db, ok, with_session}
use specter_cloud.Password.{verify_password, needs_rehash}
use specter_cloud.Sessions.{append_session, session_fits, session_refers}
use specter_cloud.Login.{
  login_invalid, Credentials, Draw, store_user, failed, attempt_login, lockout_threshold,
}
use specter_cloud.Login.Outcome.{
  session_for, started, admitted, checked, unlocked, outcome, attempt_login_lem,
}

-- The tables after an attempt: as they were, with a user's columns written, or with a session as well.
pub data Leaves (db : Db) (after : Db) : Type 0 where
  unchanged : after ≡ db → Leaves db after
  stored :
      (user : User)
      → user.failed_login_count < lockout_threshold
      → after ≡ store_user user db
      → Leaves db after
  added :
      (user : User) (s : Session)
      → user.failed_login_count < lockout_threshold
      → session_refers (store_user user db) s ≡ true
      → after ≡ append_session s (store_user user db)
      → Leaves db after

failed-count :
    (draw : Draw) (user : User) → (failed draw user).failed_login_count < lockout_threshold
unfolding failed
failed-count draw user = ground arith

module _ (platform : Platform) (c : Credentials) (draw : Draw) (db : Db) where
  started-Leaves :
      (user : User)
      → user.failed_login_count < lockout_threshold
      → Leaves db (started platform c draw db user).1
  started-Leaves user z =
      let s = session_for platform c draw db user in
      elim (Bool-cases (session_fits s)) [
        | inl short ↦ elim (Bool-cases (session_refers (store_user user db) s)) [
          | inl accepted ↦ rw (short, accepted) (added user s z accepted refl)
          | inr rejected ↦ rw (short, rejected) (unchanged refl)
        ]
        | inr long ↦ rw long (unchanged refl)
      ]

  admitted-Leaves : (user : User) → Leaves db (admitted platform c draw db user).1
  admitted-Leaves user = elim (Bool-cases (needs_rehash platform user.password_hash)) [
    | inl old ↦ elim (Bool-cases (non_empty c.password)) [
      | inl some_text ↦ rw (old, some_text) (started-Leaves _ (omega arith))
      | inr no_text ↦ rw (old, no_text) (unchanged refl)
    ]
    | inr current ↦ rw current (started-Leaves _ (omega arith))
  ]

  checked-Leaves : (user : User) → Leaves db (checked platform c draw db user).1
  checked-Leaves user = elim (Bool-cases (verify_password platform c.password user.password_hash)) [
    | inl right ↦ rw right (admitted-Leaves user)
    | inr wrong ↦ rw wrong (stored (failed draw user) (failed-count draw user) refl)
  ]

  unlocked-Leaves :
      (user : User) (o : Option Datetime) → Leaves db (unlocked platform c draw db user o).1
  unlocked-Leaves user none = checked-Leaves user
  unlocked-Leaves user (some until) = elim (Bool-cases (ltb draw.now until)) [
    | inl locked ↦ rw locked (unchanged refl)
    | inr over ↦ rw over (checked-Leaves user)
  ]

  outcome-Leaves : (o : Option User) → Leaves db (outcome platform c draw db o).1
  outcome-Leaves none = unchanged refl
  outcome-Leaves (some user) = by_active user.is_active
    where
      by_active :
          (active : Bool)
          → Leaves db
              (if active
                then unlocked platform c draw db user user.locked_until
                else (ok login_invalid, db)).1
      by_active true = unlocked-Leaves user user.locked_until
      by_active false = unchanged refl

  pub attempt_login-Leaves : Leaves db (with_session (attempt_login platform c draw) db).1
  attempt_login-Leaves = rw attempt_login_lem (outcome-Leaves _)

pub Leaves-audit_log : {db after : Db} → Leaves db after → after.audit_log ≡ db.audit_log
Leaves-audit_log (unchanged e) = ap (λ (d : Db). d.audit_log) e
Leaves-audit_log (stored user z e) = ap (λ (d : Db). d.audit_log) e
Leaves-audit_log (added user s z accepted e) = ap (λ (d : Db). d.audit_log) e
