-- ===== src/Examples/Login.antt =====
-- Examples of signing in.
use specter_cloud.Prelude.{
  ◌+◌, ◌≤◌, ◌<◌, ◌≡◌, refl, codes, Text, none, some, List, [], ◌∷◌, All, nil, cons, scalar, update,
  arith, strip, text_eq, text_eq_refl,
}
use specter_cloud.Models.{Datetime, User, Session, cookie}
use specter_cloud.Store.{ok, with_session, commit, flush, refused}
use specter_cloud.Platform.{Platform, IsSound}
use specter_cloud.Password.{verify_password}
use specter_cloud.Sessions.{
  hash_token, new_session, create_session, insert_session, session_fits, session_refers,
}
use specter_cloud.Login.{
  login_success, login_locked, Credentials, Draw, by_email, signed_in, succeed, check_password,
  store_and_start, start_session, attempt_login,
}
use specter_cloud.Login.Series.{Attempt, after_attempts, invalid_answers, IsGuess}
use specter_cloud.Login.Lockout.{IsTarget, five_guesses, locks_out}
use specter_cloud.Login.Admits.{lock_ends}
use specter_cloud.Login.Success.{SignedIn, login_success-SignedIn}
use specter_cloud.Login.Overlap.{overlapping, overlap_counts_once}
use specter_cloud.Examples.Data.{db, alice, platform, issue}

abbrev pub credentials : Text → Credentials
credentials password = record {
  email = codes " alice@example.com ";
  password = password;
  transport = cookie;
  user_agent = none;
  ip_address = none;
}

abbrev pub draw : Datetime → Draw
draw now = record { now = now; salt = []; issue = issue 900 }

abbrev wrong : Datetime → Attempt
wrong now = (credentials (codes "guess"), draw now)

abbrev guesses : List Attempt
guesses = wrong 1000 ∷ wrong 1001 ∷ wrong 1002 ∷ wrong 1003 ∷ wrong 1004 ∷ []

abbrev hash : Text
hash = codes "salt:secret"

wrong-IsGuess :
    (now : Datetime)
    → 1000 ≤ now
    → now < 2000
    → IsGuess platform (codes "alice@example.com") hash 1000 (wrong now)
unfolding verify_password strip text_eq
wrong-IsGuess now since soon = record {
  same_email = refl;
  wrong = refl;
  since = since;
  within = omega arith;
}

guesses-IsGuess : All (IsGuess platform (codes "alice@example.com") hash 1000) guesses
guesses-IsGuess = cons (wrong-IsGuess 1000 (omega arith) (omega arith)) (
    cons (wrong-IsGuess 1001 (omega arith) (omega arith)) (
      cons (wrong-IsGuess 1002 (omega arith) (omega arith)) (
        cons (wrong-IsGuess 1003 (omega arith) (omega arith))
          (cons (wrong-IsGuess 1004 (omega arith) (omega arith)) nil))))

alice-IsTarget : IsTarget platform (codes "alice@example.com") hash 1000 db alice
unfolding by_email scalar text_eq
alice-IsTarget = record { found = refl; active = refl; same_hash = refl }

five_guesses_example : invalid_answers platform guesses db + 0 ≤ 5
five_guesses_example =
    five_guesses platform (codes "alice@example.com") hash 1000 db alice alice-IsTarget
      (omega arith) guesses-IsGuess

locks_out_example :
    (until : Datetime) × (with_session
        (attempt_login platform (credentials (codes "secret")) (draw 1005))
        (after_attempts platform guesses db)
      ≡ (ok (login_locked until), after_attempts platform guesses db))
unfolding strip
locks_out_example =
    locks_out platform (codes "alice@example.com") hash 1000 guesses db alice
      (credentials (codes "secret")) (draw 1005) alice-IsTarget (omega arith)
      (λ until e. absurd (cc e)) (omega arith) guesses-IsGuess refl (omega arith)

abbrev pub alice_signed_in : User
alice_signed_in = signed_in (draw 1000) alice hash

abbrev pub session : Session
session = new_session (codes "token") 70 cookie none none (issue 900)

pub attempt_login-secret :
    (with_session (attempt_login platform (credentials (codes "secret")) (draw 1000)) db).0
    ≡ ok (login_success alice_signed_in (codes "token") session)
unfolding with_session attempt_login by_email scalar text_eq strip check_password verify_password
    succeed store_and_start start_session create_session insert_session flush refused session_fits
    session_refers update commit
attempt_login-secret = refl

login_success-SignedIn_example :
    SignedIn platform
      (credentials (codes "secret"))
      (draw 1000)
      db
      alice_signed_in
      (codes "token")
      session
      (with_session (attempt_login platform (credentials (codes "secret")) (draw 1000)) db).1
login_success-SignedIn_example =
    login_success-SignedIn platform (credentials (codes "secret")) (draw 1000) db alice_signed_in
      (codes "token") session attempt_login-secret

-- a platform with digests of one character, and Alice with a lock that is over
abbrev pub short_digests : Platform
short_digests = record platform { sha256_hex = λ s. 100 ∷ [] }

abbrev unlocked_alice : User
unlocked_alice = record alice { locked_until = some 900 }

pub short_digests-IsSound : IsSound short_digests
unfolding text_eq
short_digests-IsSound = record {
  length-sha256_hex = λ s. omega arith;
  verify-hash = λ salt plain. rw (text_eq_refl plain) refl;
}

until_is : (until : Datetime) → some 900 ≡ some until → until ≡ 900
until_is until e = cc e

lock_ends_example :
    (with_session
      (attempt_login short_digests (credentials (codes "secret")) (draw 1000))
      (record db { users = unlocked_alice ∷ [] })).0
    ≡ ok (
        login_success
          (signed_in (draw 1000) unlocked_alice hash)
          (codes "token")
          (new_session (100 ∷ []) 70 cookie none none (issue 900)))
unfolding by_email scalar text_eq strip verify_password hash_token
lock_ends_example =
    lock_ends short_digests (credentials (codes "secret")) (draw 1000)
      (record db { users = unlocked_alice ∷ [] }) unlocked_alice short_digests-IsSound refl refl
      (λ until e. omega (arith, until_is until e)) refl refl refl nil

-- six overlapping guesses
overlap_counts_once_example :
    (row : User) × (by_email
        (codes "alice@example.com")
        (overlapping platform alice (wrong 999 ∷ guesses) db)
      ≡ some row)
    × (row.failed_login_count ≡ 1)
    × (row.locked_until ≡ none)
unfolding by_email scalar text_eq verify_password
overlap_counts_once_example =
    overlap_counts_once platform alice (codes "alice@example.com") refl refl (omega arith)
      (wrong 999) guesses db refl
      (cons refl (cons refl (cons refl (cons refl (cons refl (cons refl nil))))))
