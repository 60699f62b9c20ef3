-- ===== src/Login/Attempts.antt =====
-- What an attempt does to the user that it is about.
use specter_cloud.Prelude.{
  ◌≤◌, ◌<◌, ◌≡◌, ◌∙◌, refl, ap, Text, text_eq, true, false, Option, none, some, scalar-update,
  arith, ◌==◌, ==_refl, if◌then◌else◌,
}
use specter_cloud.Platform.{Platform}
use specter_cloud.Models.{Datetime, User}
use specter_cloud.Store.{Db, ok, with_session}
use specter_cloud.Password.{verify_password}
use specter_cloud.Login.{
  login_invalid, login_locked, Credentials, Draw, normalized, by_email, write_user, store_user,
  failed, attempt_login,
}
use specter_cloud.Login.Outcome.{outcome, unlocked, checked, attempt_login_lem}

-- The stored user is found under the same email.
pub by_email-store_user :
    (email : Text) (db : Db) (user stored : User)
    → by_email email db ≡ some user
    → stored.id ≡ user.id
    → by_email email (store_user stored db) ≡ some (write_user stored user)
unfolding by_email
by_email-store_user email db user stored e same =
    scalar-update (λ u. text_eq u.email email) (λ r. r.id == stored.id) (write_user stored)
      (λ x. refl) db.users e (rw same (==_refl user.id))

-- The account is locked at a moment.
abbrev pub IsLocked : Datetime → User → Type 0
IsLocked now user = (until : Datetime) × (user.locked_until ≡ some until) × (now < until)

-- a user found by the email of the attempt, whose account is active
pub record IsFound (platform : Platform) (c : Credentials) (db : Db) (user : User) : Type 0 where
  pub found : by_email (normalized platform c.email) db ≡ some user
  pub active : user.is_active ≡ true

module _ (platform : Platform) (c : Credentials) (draw : Draw) (db : Db) (user : User) where
  by_lock :
      IsFound platform c db user
      → with_session (attempt_login platform c draw) db
        ≡ unlocked platform c draw db user user.locked_until
  by_lock h =
      attempt_login_lem platform c draw db
      ∙ ap (outcome platform c draw db) h.found
      ∙ ap
          (λ b.
            if b
            then unlocked platform c draw db user user.locked_until
            else (ok login_invalid, db))
          h.active

  -- While an account is locked, an attempt is answered with the end of the lock, whatever the
  -- password, and changes nothing.
  pub locked_out :
      (until : Datetime)
      → IsFound platform c db user
      → user.locked_until ≡ some until
      → draw.now < until
      → with_session (attempt_login platform c draw) db ≡ (ok (login_locked until), db)
  locked_out until h locked before =
      by_lock h ∙ ap (unlocked platform c draw db user) locked ∙ ground arith

  unlocked-over :
      (o : Option Datetime)
      → ((until : Datetime) → o ≡ some until → until ≤ draw.now)
      → unlocked platform c draw db user o ≡ checked platform c draw db user
  unlocked-over none over = refl
  unlocked-over (some until) over = let e = over until refl in ground arith

  -- With no lock in force, the password is checked.
  pub lock_over :
      IsFound platform c db user
      → ((until : Datetime) → user.locked_until ≡ some until → until ≤ draw.now)
      → with_session (attempt_login platform c draw) db ≡ checked platform c draw db user
  lock_over h over = by_lock h ∙ unlocked-over user.locked_until over

  pub wrong_password :
      IsFound platform c db user
      → ((until : Datetime) → user.locked_until ≡ some until → until ≤ draw.now)
      → verify_password platform c.password user.password_hash ≡ false
      → with_session (attempt_login platform c draw) db
        ≡ (ok login_invalid, store_user (failed draw user) db)
  wrong_password h over wrong = lock_over h over ∙ rw wrong refl
