-- ===== src/Login/Lockout.antt =====
-- How many passwords an attacker can try, and when the account is locked.
use specter_cloud.Prelude.{
  ◌+◌, ◌≤◌, ◌<◌, ◌≡◌, ◌∙◌, refl, ap, sym, inl, inr, Text, true, false, some, List, All, nil, cons,
  length, arith, leb, Bool-cases, leb→le,
}
use specter_cloud.Platform.{Platform}
use specter_cloud.Models.{Datetime, User}
use specter_cloud.Store.{Db, ok, with_session}
use specter_cloud.Password.{verify_password}
use specter_cloud.Sessions.{minutes}
use specter_cloud.Login.{
  login_locked, Credentials, Draw, normalized, by_email, write_user, store_user, failed,
  lockout_threshold, lockout_duration_minutes, attempt_login,
}
use specter_cloud.Login.Attempts.{by_email-store_user, IsFound, locked_out, wrong_password}
use specter_cloud.Login.Series.{
  Attempt, after_attempts, invalid_answers, IsGuess, IsOver, failed-below, failed-locks,
  failed-same, lock_cases,
}

module _ (platform : Platform) (email : Text) (hash : Text) (from : Datetime) where
  -- the account that the attempts are for
  pub record IsTarget (db : Db) (user : User) : Type 0 where
    pub found : by_email email db ≡ some user
    pub active : user.is_active ≡ true
    pub same_hash : user.password_hash ≡ hash

  target-IsFound :
      {a : Attempt} {db : Db} {user : User}
      → IsGuess platform email hash from a
      → IsTarget db user
      → IsFound platform a.0 db user
  target-IsFound {db = db} g t = record {
    found = ap (λ e. by_email e db) g.same_email ∙ t.found;
    active = t.active;
  }

  -- During the lock no password is tried, and nothing changes.
  locked-attempts :
      (until : Datetime) {attempts : List Attempt} (db : Db) (user : User)
      → IsTarget db user
      → user.locked_until ≡ some until
      → from + minutes lockout_duration_minutes ≤ until
      → All (IsGuess platform email hash from) attempts
      → (invalid_answers platform attempts db ≡ 0) × (after_attempts platform attempts db ≡ db)
  unfolding invalid_answers after_attempts
  locked-attempts until db user t e late nil = (refl, refl)
  locked-attempts until db user t e late (cons {x = a} g rest) =
      let same =
        locked_out platform a.0 a.1 db user until (target-IsFound g t) e
          (let w = g.within in omega arith) in
      let (none_tried, unchanged) = locked-attempts until db user t e late rest in
      rw same (omega (arith, none_tried), unchanged)

  -- A wrong password leaves an account that the same attempts are for.
  failed-IsTarget :
      (draw : Draw) {db : Db} {user : User}
      → IsTarget db user
      → IsTarget (store_user (failed draw user) db) (write_user (failed draw user) user)
  failed-IsTarget draw {db} {user} t = record {
    found = by_email-store_user email db user (failed draw user) t.found (failed-same draw user).0;
    active = t.active;
    same_hash = (failed-same draw user).1 ∙ t.same_hash;
  }

  wrong_for :
      {a : Attempt} {db : Db} {user : User}
      → IsGuess platform email hash from a
      → IsTarget db user
      → verify_password platform a.0.password user.password_hash ≡ false
  wrong_for {a = a} g t = ap (verify_password platform a.0.password) t.same_hash ∙ g.wrong

  -- For an account that is active and has fewer than five failures counted, of any number of attempts
  -- with wrong passwords within fifteen minutes at most five, less the failures counted before, are
  -- answered as invalid.
  pub five_guesses :
      {attempts : List Attempt} (db : Db) (user : User)
      → IsTarget db user
      → user.failed_login_count < lockout_threshold
      → All (IsGuess platform email hash from) attempts
      → invalid_answers platform attempts db + user.failed_login_count ≤ lockout_threshold
  unfolding invalid_answers
  five_guesses db user t h nil = omega arith
  five_guesses db user t h (cons {x = a} g rest) =
      let found = target-IsFound g t in
      let stored = store_user (failed a.1 user) db in
      let user' = write_user (failed a.1 user) user in
      let t' : IsTarget stored user' = failed-IsTarget a.1 t in
      elim (lock_cases a.1.now user) [
        | inl (until, e, before) ↦
            rw (locked_out platform a.0 a.1 db user until found e before)
              (omega (arith, five_guesses db user t h rest))
        | inr over ↦
            rw (wrong_password platform a.0 a.1 db user found over (wrong_for g t))
              (elim (Bool-cases (leb lockout_threshold (user.failed_login_count + 1))) [
                | inl full ↦
                    let (_, locks) = failed-locks a.1 user (leb→le _ _ full) in
                    omega (
                      arith,
                      h,
                      (locked-attempts _ stored user' t' locks (let w = g.since in omega arith)
                          rest).0,
                    )
                | inr room ↦
                    let (count, _) = failed-below a.1 user (ground arith) in
                    omega (arith, count, five_guesses stored user' t' (ground arith) rest)
              ])
      ]

  -- the lock that enough wrong passwords put on the account
  Locks : Db → Type 0
  Locks db =
      (user : User) × IsTarget db user
      × (until : Datetime) × (user.locked_until ≡ some until)
      × (from + minutes lockout_duration_minutes ≤ until)

  attempts-Locks :
      {attempts : List Attempt} (db : Db) (user : User)
      → IsTarget db user
      → user.failed_login_count < lockout_threshold
      → IsOver from user
      → lockout_threshold ≤ length attempts + user.failed_login_count
      → All (IsGuess platform email hash from) attempts
      → Locks (after_attempts platform attempts db)
  unfolding after_attempts Locks
  attempts-Locks db user t h over enough nil = absurd (omega arith)
  attempts-Locks db user t h over enough (cons {x = a} {xs} g rest) =
      let found = target-IsFound g t in
      let stored = store_user (failed a.1 user) db in
      let user' = write_user (failed a.1 user) user in
      let t' : IsTarget stored user' = failed-IsTarget a.1 t in
      rw
        (wrong_password platform a.0 a.1 db user found
          (λ until e. let p = over until e in let w = g.since in omega arith) (wrong_for g t))
        (elim (Bool-cases (leb lockout_threshold (user.failed_login_count + 1))) [
          | inl full ↦
              let (_, locks) = failed-locks a.1 user (leb→le _ _ full) in
              let late : from + minutes lockout_duration_minutes
                  ≤ a.1.now + minutes lockout_duration_minutes =
                let w = g.since in omega arith in
              rw
                ((locked-attempts (a.1.now + minutes lockout_duration_minutes) stored user' t' locks
                  late rest).1)
                (user', t', _, locks, late)
          | inr room ↦
              let (count, same_lock) = failed-below a.1 user (ground arith) in
              attempts-Locks stored user' t' (ground arith)
                (λ until e. over until (sym same_lock ∙ e)) (omega (arith, count)) rest
        ])

  -- For an account that is active, has fewer than five failures counted and no lock in force at a
  -- moment, let attempts with wrong passwords within fifteen minutes of the moment, with the
  -- failures counted before, be at least five. A further attempt in these fifteen minutes, with
  -- whichever password, is answered as locked and changes nothing.
  pub locks_out :
      (attempts : List Attempt) (db : Db) (user : User) (c : Credentials) (draw : Draw)
      → IsTarget db user
      → user.failed_login_count < lockout_threshold
      → IsOver from user
      → lockout_threshold ≤ length attempts + user.failed_login_count
      → All (IsGuess platform email hash from) attempts
      → normalized platform c.email ≡ email
      → draw.now < from + minutes lockout_duration_minutes
      → (until : Datetime) × (with_session
            (attempt_login platform c draw)
            (after_attempts platform attempts db)
          ≡ (ok (login_locked until), after_attempts platform attempts db))
  unfolding Locks
  locks_out attempts db user c draw t h over enough guesses same_email soon =
      let (user', t', until, locked, late) = attempts-Locks db user t h over enough guesses in
      (
        until,
        locked_out platform c draw _ user' until
            (record {
              found =
                  ap (λ e. by_email e (after_attempts platform attempts db)) same_email ∙ t'.found;
              active = t'.active;
            })
            locked (omega arith),
      )
