-- ===== src/Scripts/Bootstrap/FirstLogin.antt =====
-- The first login after bootstrap_specter_org.py.
use specter_cloud.Prelude.{
  ◌≡◌, ◌≢◌, ◌∙◌, refl, ap, strip, text_eq, text_eq_refl, true, false, none, some, [], ◌∷◌, All,
  scalar, scalar-none, scalar-append_none, if◌then◌else◌,
}
use specter_cloud.Platform.{Platform, IsSound}
use specter_cloud.Models.{User, Session}
use specter_cloud.Store.{Db, ok, with_session, fits}
use specter_cloud.Password.{verify_password, needs_rehash}
use specter_cloud.Sessions.{hash_token}
use specter_cloud.Login.{Credentials, Draw, login_success, normalized, by_email, attempt_login}
use specter_cloud.Login.Outcome.{session_for}
use specter_cloud.Login.Admits.{lock_ends, admitted_user}
use specter_cloud.Scripts.Bootstrap.{Setup, bootstrap, admin_user, user_with_email}
use specter_cloud.Scripts.Bootstrap.Ends.{Bootstrapped}
use specter_cloud.Scripts.Bootstrap.Again.{bootstrap-Bootstrapped}

module _ {platform : Platform} {setup : Setup} {db db' : Db}
    (b : Bootstrapped platform setup db db') where
  -- the user that the run added
  abbrev pub first_user : User
  first_user =
      admin_user setup (platform.lower (strip setup.email)) b.password_hash (strip setup.name)

  Bootstrapped-by_email : by_email (normalized platform setup.email) db' ≡ some first_user
  unfolding by_email user_with_email scalar
  Bootstrapped-by_email =
      let p = λ (u : User). text_eq u.email (platform.lower (strip setup.email)) in
      ap (λ (d : Db). scalar p d.users) b.result
      ∙ scalar-append_none p b.base.users (first_user ∷ [])
          (scalar-none p b.base.users b.fresh_email)
      ∙ ap (λ t. if t then some first_user else none)
          (text_eq_refl (platform.lower (strip setup.email)))

  Bootstrapped-verify_password :
      IsSound platform → verify_password platform setup.password b.password_hash ≡ true
  unfolding verify_password
  Bootstrapped-verify_password sound =
      ap (verify_password platform setup.password) b.hashed ∙ rw sound.verify-hash refl

-- After a run that returns True, the first admin can log in: with the address that was configured, however it is
-- written as long as it normalizes to the same, and the password that was configured, at any moment. It holds if
-- a fresh hash needs no new one, the User-Agent fits its column and the drawn id and token hash are not taken.
pub first_login_succeeds :
    (platform : Platform) (setup : Setup) (db : Db) (c : Credentials) (draw : Draw)
    → (with_session (bootstrap platform setup) db).0 ≡ ok true
    → IsSound platform
    → needs_rehash platform (platform.argon2_hash setup.salt setup.password) ≡ false
    → normalized platform c.email ≡ normalized platform setup.email
    → c.password ≡ setup.password
    → fits 500 c.user_agent ≡ true
    → let after = (with_session (bootstrap platform setup) db).1 in
      All
        (λ r. (r.id ≢ draw.issue.id) × (r.token_hash ≢ hash_token platform draw.issue.drawn))
        after.sessions
      → (user : User) × (sess : Session) × ((with_session (attempt_login platform c draw) after).0
          ≡ ok (login_success user draw.issue.drawn sess))
        × (user.email ≡ normalized platform setup.email)
        × (sess.user_id ≡ user.id)
first_login_succeeds platform setup db c draw ran sound current same_email same_password short
      apart =
    let after = (with_session (bootstrap platform setup) db).1 in
    let b = bootstrap-Bootstrapped platform setup db ran in
    let user = first_user b in
    (
      admitted_user platform c draw after user,
      session_for platform c draw after user,
      lock_ends platform c draw after user sound
          (ap (λ e. by_email e after) same_email ∙ Bootstrapped-by_email b) refl
          (λ until e. absurd (cc e))
          (ap (λ w. verify_password platform w b.password_hash) same_password
            ∙ Bootstrapped-verify_password b sound)
          (ap (needs_rehash platform) b.hashed ∙ current) short apart,
      refl,
      refl,
    )
