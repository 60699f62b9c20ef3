-- ===== src/App/Raised.antt =====
-- Which errors the operations behind the routes raise: none of HTTP.
use specter_cloud.Prelude.{
  inr, inl, ◌==◌, scalar, ◌-◌, text_eq, any, Bool-cases, subst, ◌≡◌, refl, Text, codes, true, false,
  Option, none, some, non_empty, length, leb, ltb, is_none,
}
use specter_cloud.Platform.{Platform}
use specter_cloud.Models.{Uuid, Datetime, SessionTransport, User, Session, AuditLog}
use specter_cloud.Store.{Error, value_error, integrity_error, data_error}
use specter_cloud.Store.Raises.{
  is_http, Raises, Raises-pure, Raises-raise, Raises-query, Raises-modify, Raises-if, Raises->>=,
  Raises->>, Raises-flush, Raises-commit,
}
use specter_cloud.Audit.{write, valid_decisions}
use specter_cloud.Password.{hash_password, verify_password, needs_rehash}
use specter_cloud.Sessions.{
  seen, revoked, hash_token, by_token_hash, update_sessions, last_seen_debounce_minutes, minutes,
  append_session, fail, insert_session, insert_checked, session_fits, create_session, touch, accept,
  is_live, lookup_session, commit_reason, revoke_found, revoke_session, Issue,
}
use specter_cloud.Login.{
  normalized, by_email, failed, signed_in, store_user, Credentials, Draw, login_success,
  login_invalid, login_locked, count_failure, rehash, start_session, store_and_start, succeed,
  check_password, check_lock, sign_in, attempt_login,
}

module _ (P : Error → Type 0) (internal : (e : Error) → is_http e ≡ false → P e) where
  fail-Raises : {A : Type 0} (e : Error) → is_http e ≡ false → Raises P {A = A} (fail e)
  fail-Raises e h = record { errors = λ s e' r. subst P (cc r) (internal e h) }

  pub write-Raises : (row : AuditLog) → Raises P (write row)
  unfolding write
  write-Raises row = record {
    errors = λ s e r. elim (Bool-cases (any (λ d. text_eq d row.decision) valid_decisions)) [
      | inl valid ↦ absurd (cc (rw valid at r))
      | inr other ↦ subst P (cc (rw other at r)) (internal value_error refl)
    ];
  }

  hash_password-Raises :
      (platform : Platform) (salt plain : Text) → Raises P (hash_password platform salt plain)
  unfolding hash_password
  hash_password-Raises platform salt plain =
      Raises-if P (non_empty plain) (Raises-pure P _)
        (Raises-raise P value_error (internal value_error refl))

  insert_session-Raises : (s : Session) → Raises P (insert_session s)
  unfolding insert_session insert_checked
  insert_session-Raises s = Raises->> P (Raises-flush P internal) (
      Raises->>= P (Raises-query P _) (λ accepted.
        Raises-if P (session_fits s)
          (Raises-if P accepted (Raises-modify P (append_session s))
            (fail-Raises integrity_error refl))
          (fail-Raises data_error refl)))

  touch-Raises : (now : Datetime) (sess : Session) → Raises P (touch now sess)
  unfolding touch
  touch-Raises now sess =
      Raises-if P (ltb (minutes last_seen_debounce_minutes) (now - sess.last_seen_at))
        (Raises->> P
          (Raises->> P (Raises-modify P (update_sessions (λ r. r.id == sess.id) (seen now)))
            (Raises-commit P internal))
          (Raises-pure P (some (seen now sess))))
        (Raises-pure P (some sess))

  accept-Raises : (now : Datetime) (o : Option Session) → Raises P (accept now o)
  unfolding accept
  accept-Raises now none = Raises-pure P none
  accept-Raises now (some sess) =
      Raises-if P (is_live now sess) (touch-Raises now sess) (Raises-pure P none)

  pub lookup_session-Raises :
      (platform : Platform) (raw : Text) (now : Datetime)
      → Raises P (lookup_session platform raw now)
  unfolding lookup_session
  lookup_session-Raises platform raw now =
      Raises-if P (non_empty raw)
        (Raises->>= P (Raises-query P (by_token_hash (hash_token platform raw)))
          (accept-Raises now))
        (Raises-pure P none)

  commit_reason-Raises : (reason : Text) → Raises P (commit_reason reason)
  unfolding commit_reason
  commit_reason-Raises reason =
      Raises-if P (leb (length reason) 40) (Raises-commit P internal) (fail-Raises data_error refl)

  revoke_found-Raises :
      (reason : Text) (now : Datetime) (o : Option Session) → Raises P (revoke_found reason now o)
  unfolding revoke_found
  revoke_found-Raises reason now none = Raises-pure P false
  revoke_found-Raises reason now (some sess) =
      Raises-if P (is_none sess.revoked_at)
        (Raises->> P
          (Raises->> P
            (Raises-modify P (update_sessions (λ r. r.id == sess.id) (revoked now reason)))
            (commit_reason-Raises reason))
          (Raises-pure P true))
        (Raises-pure P false)

  pub revoke_session-Raises :
      (id : Uuid) (reason : Text) (now : Datetime) → Raises P (revoke_session id reason now)
  unfolding revoke_session
  revoke_session-Raises id reason now =
      Raises->>= P (Raises-query P (λ db. scalar (λ r. r.id == id) db.sessions))
        (revoke_found-Raises reason now)

  create_session-Raises :
      (platform : Platform) (user_id : Uuid) (transport : SessionTransport)
      (user_agent ip_address : Option Text) (issue : Issue)
      → Raises P (create_session platform user_id transport user_agent ip_address issue)
  unfolding create_session
  create_session-Raises platform user_id transport user_agent ip_address issue =
      Raises->> P (insert_session-Raises _) (Raises-pure P _)

  rehash-Raises :
      (platform : Platform) (password salt hashed : Text)
      → Raises P (rehash platform password salt hashed)
  unfolding rehash
  rehash-Raises platform password salt hashed =
      Raises-if P (needs_rehash platform hashed) (hash_password-Raises platform salt password)
        (Raises-pure P hashed)

  succeed-Raises :
      (platform : Platform) (c : Credentials) (draw : Draw) (user : User)
      → Raises P (succeed platform c draw user)
  unfolding succeed store_and_start start_session
  succeed-Raises platform c draw user =
      Raises->>= P (rehash-Raises platform c.password draw.salt user.password_hash) (λ hashed.
        Raises->> P (Raises-modify P (store_user (signed_in draw user hashed))) (
          Raises->>= P
            (create_session-Raises platform user.id c.transport c.user_agent c.ip_address
              draw.issue)
            (λ r.
              Raises->> P (Raises-commit P internal)
                (Raises-pure P (login_success (signed_in draw user hashed) r.0 r.1)))))

  check_password-Raises :
      (platform : Platform) (c : Credentials) (draw : Draw) (user : User)
      → Raises P (check_password platform c draw user)
  unfolding check_password count_failure
  check_password-Raises platform c draw user =
      Raises-if P (verify_password platform c.password user.password_hash)
        (succeed-Raises platform c draw user)
        (Raises->> P
          (Raises->> P (Raises-modify P (store_user (failed draw user))) (Raises-commit P internal))
          (Raises-pure P login_invalid))

  check_lock-Raises :
      (platform : Platform) (c : Credentials) (draw : Draw) (user : User) (o : Option Datetime)
      → Raises P (check_lock platform c draw user o)
  unfolding check_lock
  check_lock-Raises platform c draw user none = check_password-Raises platform c draw user
  check_lock-Raises platform c draw user (some until) =
      Raises-if P (ltb draw.now until) (Raises-pure P (login_locked until))
        (check_password-Raises platform c draw user)

  sign_in-Raises :
      (platform : Platform) (c : Credentials) (draw : Draw) (o : Option User)
      → Raises P (sign_in platform c draw o)
  unfolding sign_in
  sign_in-Raises platform c draw none =
      Raises->> P (hash_password-Raises platform draw.salt (codes "placeholder-to-burn-cpu"))
        (Raises-pure P login_invalid)
  sign_in-Raises platform c draw (some user) =
      Raises-if P user.is_active (check_lock-Raises platform c draw user user.locked_until)
        (Raises-pure P login_invalid)

  -- A login raises no HTTP error of its own.
  pub attempt_login-Raises :
      (platform : Platform) (c : Credentials) (draw : Draw)
      → Raises P (attempt_login platform c draw)
  unfolding attempt_login
  attempt_login-Raises platform c draw =
      Raises->>= P (Raises-query P (by_email (normalized platform c.email)))
        (sign_in-Raises platform c draw)
