-- ===== src/Login/Overlap.antt =====
-- Attempts that overlap: each has read the user before another one commits.
use specter_cloud.Prelude.{
  subst, sym, ◌+◌, ◌<◌, ◌≡◌, ◌∙◌, refl, ap, Text, true, false, none, some, List, [], ◌∷◌, All, cons,
  arith, if◌then◌else◌, leb,
}
use specter_cloud.Platform.{Platform}
use specter_cloud.Models.{User}
use specter_cloud.Store.{Db, pure, with_session, with_session_lem}
use specter_cloud.Password.{verify_password}
use specter_cloud.Login.{
  login_invalid, Draw, by_email, write_user, store_user, failed, lockout_threshold, count_failure,
  check_password, check_lock, succeed, sign_in,
}
use specter_cloud.Login.Series.{Attempt}
use specter_cloud.Login.Outcome.{count_failure_lem}
use specter_cloud.Login.Attempts.{by_email-store_user}

-- The attempts go on, one after another, from the user that all of them have read.
abbrev pub overlapping : Platform → User → List Attempt → Db → Db
overlapping platform user [] db = db
overlapping platform user (a ∷ attempts) db =
    overlapping platform user attempts (with_session (sign_in platform a.0 a.1 (some user)) db).1

-- the row of the user after some of the attempts
record IsCountedOnce (email : Text) (user : User) (db : Db) : Type 0 where
  row : User
  found : by_email email db ≡ some row
  same_id : row.id ≡ user.id
  counted : row.failed_login_count ≡ user.failed_login_count + 1
  not_locked : row.locked_until ≡ none

module _ (platform : Platform) (user : User) (email : Text) (active : user.is_active ≡ true)
    (not_locked : user.locked_until ≡ none)
    (few : user.failed_login_count + 1 < lockout_threshold) where
  sign_in_lem :
      (a : Attempt) (db : Db)
      → verify_password platform a.0.password user.password_hash ≡ false
      → (with_session (sign_in platform a.0 a.1 (some user)) db).1 ≡ store_user (failed a.1 user) db
  unfolding sign_in check_lock check_password
  sign_in_lem a db wrong =
      let c = a.0 in
      let draw = a.1 in
      ap
        (λ b.
          (with_session
            (if b then check_lock platform c draw user user.locked_until else pure login_invalid)
            db).1)
        active
      ∙ ap (λ o. (with_session (check_lock platform c draw user o) db).1) not_locked
      ∙ ap
          (λ b.
            (with_session (if b then succeed platform c draw user else count_failure draw user)
              db).1)
          wrong
      ∙ ap (λ r. r.1)
          (with_session_lem (count_failure draw user) db
            (count_failure_lem platform c draw db user))

  below : leb lockout_threshold (user.failed_login_count + 1) ≡ false
  below = ground arith

  failed_once :
      (draw : Draw)
      → failed draw user ≡ record user {
        failed_login_count = user.failed_login_count + 1;
        updated_at = draw.issue.db_now;
      }
  unfolding failed
  failed_once draw = rw below refl

  -- One more overlapping attempt writes the count again.
  again :
      (draw : Draw) (db : Db) (row : User)
      → by_email email db ≡ some row
      → row.id ≡ user.id
      → IsCountedOnce email user (store_user (failed draw user) db)
  again draw db row found same_id =
      let stored = failed draw user in
      let once = failed_once draw in
      record {
        row = write_user stored row;
        found =
            by_email-store_user email db row stored found
              (ap (λ (u : User). u.id) once ∙ sym same_id);
        same_id = same_id;
        counted = ap (λ (u : User). u.failed_login_count) once;
        not_locked = ap (λ (u : User). u.locked_until) once ∙ not_locked;
      }

  all_again :
      (attempts : List Attempt) (db : Db)
      → All (λ a. verify_password platform a.0.password user.password_hash ≡ false) attempts
      → IsCountedOnce email user db
      → IsCountedOnce email user (overlapping platform user attempts db)
  all_again [] db wrong once = once
  all_again (a ∷ attempts) db (cons w wrong) once = all_again attempts _ wrong (
      subst (IsCountedOnce email user) (sym (sign_in_lem a db w))
        (again a.1 db once.row once.found once.same_id))

  -- Attempts with wrong passwords that have all read the same unlocked user count as one, however many there
  -- are: when all have ended, the user's count is one more than it was and the account is not locked, if one more
  -- failure stays below the threshold and the account is active.
  pub overlap_counts_once :
      (a : Attempt) (attempts : List Attempt) (db : Db)
      → by_email email db ≡ some user
      → All (λ b. verify_password platform b.0.password user.password_hash ≡ false) (a ∷ attempts)
      → (row : User) × (by_email email (overlapping platform user (a ∷ attempts) db) ≡ some row)
        × (row.failed_login_count ≡ user.failed_login_count + 1)
        × (row.locked_until ≡ none)
  overlap_counts_once a attempts db found (cons w wrong) =
      let once = all_again attempts _ wrong (
        subst (IsCountedOnce email user) (sym (sign_in_lem a db w))
          (again a.1 db user found refl)) in
      (once.row, once.found, once.counted, once.not_locked)
