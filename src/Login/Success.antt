-- ===== src/Login/Success.antt =====
-- What a successful login requires, and what its token is good for.
use specter_cloud.Prelude.{
  subst, [], ◌∷◌, ◌++◌, update, ◌+◌, ◌≤◌, ◌≡◌, ◌∙◌, refl, ap, sym, inl, inr, Text, non_empty, true,
  none, some, arith, Bool-cases, &&_iff, ◌&&◌, scalar, ◌==◌, ==_refl, scalar-update,
}
use specter_cloud.Platform.{Platform}
use specter_cloud.Models.{Datetime, User, Session}
use specter_cloud.Store.{Db, ok, with_session}
use specter_cloud.Password.{verify_password}
use specter_cloud.Sessions.{
  days, idle_timeout_days, session_ttl_days, hash_token, session_fits, session_refers,
  append_session, lookup_session,
}
use specter_cloud.Sessions.Lookup.{lookup_session_iff, debounced, presented, IsUsable}
use specter_cloud.Sessions.RoundTrip.{by_token_hash-append}
use specter_cloud.Login.{
  login_success, Credentials, Draw, normalized, by_email, store_user, signed_in, attempt_login,
  write_user,
}
use specter_cloud.Login.Outcome.{session_for, started}
use specter_cloud.Login.Series.{IsOver}
use specter_cloud.Dependencies.{get_user}
use specter_cloud.Login.Reached.{Keeps, Reached, attempt_login-Reached}

module _ (platform : Platform) (c : Credentials) (draw : Draw) (db : Db) where
  -- what a session that was started returns and leaves
  record Started (user u : User) (raw : Text) (s : Session) (after : Db) : Type 0 where
    same_user : u ≡ user
    same_token : raw ≡ draw.issue.drawn
    same_session : s ≡ session_for platform c draw db user
    accepted : session_refers (store_user user db) s ≡ true
    stored : after ≡ append_session s (store_user user db)

  started-Started :
      (user u : User) (raw : Text) (s : Session)
      → (started platform c draw db user).0 ≡ ok (login_success u raw s)
      → Started user u raw s (started platform c draw db user).1
  started-Started user u raw s h =
      let row = session_for platform c draw db user in
      elim (Bool-cases (session_fits row && session_refers (store_user user db) row)) [
        | inl both ↦
            let (short, accepted) =
              (&&_iff (session_fits row) (session_refers (store_user user db) row)).0 both in
            let e : ok (login_success user draw.issue.drawn row) ≡ ok (login_success u raw s) =
              rw (short, accepted) at h in
            let same : s ≡ row = cc e in
            rw (short, accepted)
              (record {
                same_user = cc e;
                same_token = cc e;
                same_session = same;
                accepted = ap (session_refers (store_user user db)) same ∙ accepted;
                stored = ap (λ x. append_session x (store_user user db)) (sym same);
              })
        | inr not_both ↦ absurd (ground arith)
      ]

  -- what a success says of the user that was found, of the one that is returned, and of the tables
  pub record SignedIn (u : User) (raw : Text) (s : Session) (after : Db) : Type 0 where
    pub user : User
    pub found : by_email (normalized platform c.email) db ≡ some user
    pub active : user.is_active ≡ true
    pub not_locked : IsOver draw.now user
    pub right : verify_password platform c.password user.password_hash ≡ true
    pub password_kept : Keeps platform c draw db user u.password_hash
    pub returned : u ≡ record user {
      failed_login_count = 0;
      locked_until = none;
      last_login_at = some draw.now;
      password_hash = u.password_hash;
      updated_at = draw.issue.db_now;
    }
    pub of_user : s.user_id ≡ u.id
    pub same_token : raw ≡ draw.issue.drawn
    pub session : s ≡ record {
      id = draw.issue.id;
      user_id = user.id;
      token_hash = platform.sha256_hex raw;
      transport = c.transport;
      user_agent = c.user_agent;
      ip_address = c.ip_address;
      created_at = draw.issue.db_now;
      expires_at = draw.issue.now + days 30;
      last_seen_at = draw.issue.db_now;
      revoked_at = none;
      revoked_reason = none;
    }
    pub accepted : session_refers (store_user u db) s ≡ true
    pub stored : after ≡ record db {
      users =
          update
            (λ r. r.id == user.id)
            (λ r. record r {
              failed_login_count = 0;
              locked_until = none;
              last_login_at = some draw.now;
              password_hash = u.password_hash;
              updated_at = draw.issue.db_now;
            })
            db.users;
      sessions = db.sessions ++ s ∷ [];
    }

  module _ (u : User) (raw : Text) (s : Session)
      (h : (with_session (attempt_login platform c draw) db).0 ≡ ok (login_success u raw s)) where
    reached : Reached platform c draw db (with_session (attempt_login platform c draw) db)
    reached = attempt_login-Reached platform c draw db (u, raw, s, h)

    signed : User
    signed = signed_in draw reached.user reached.starts.0

    success-Started : Started signed u raw s (with_session (attempt_login platform c draw) db).1
    unfolding signed reached
    success-Started =
        rw reached.starts.1 (started-Started signed u raw s (rw reached.starts.1 at h))

    -- A login that succeeds found, by the normalized email, an active account with no lock in force,
    -- and the password was the right one. In the row of that id it clears the counter and the lock, notes the
    -- moment in last_login_at and updated_at, and leaves the password's hash, or replaces it by a new hash of that password where the hasher asks
    -- for one; it adds a session of that user with the hash of the returned token, for thirty days; no other field,
    -- row or table is changed.
    pub login_success-SignedIn :
        SignedIn u raw s (with_session (attempt_login platform c draw) db).1
    unfolding signed hash_token
    login_success-SignedIn =
        let b = success-Started in
        record {
          user = reached.user;
          found = reached.found;
          active = reached.active;
          not_locked = reached.not_locked;
          right = reached.right;
          password_kept =
              subst (Keeps platform c draw db reached.user)
                (sym (ap (λ (x : User). x.password_hash) b.same_user)) reached.starts.2;
          returned =
              b.same_user
              ∙ ap (signed_in draw reached.user)
                  (sym (ap (λ (x : User). x.password_hash) b.same_user));
          of_user =
              ap (λ (x : Session). x.user_id) b.same_session
              ∙ ap (λ (x : User). x.id) (sym b.same_user);
          same_token = b.same_token;
          session =
              b.same_session
              ∙ ap
                  (λ t. record (session_for platform c draw db signed) {
                    token_hash = platform.sha256_hex t;
                  })
                  (sym b.same_token);
          accepted = ap (λ x. session_refers (store_user x db) s) b.same_user ∙ b.accepted;
          stored =
              b.stored
              ∙ ap (λ h. append_session s (store_user (signed_in draw reached.user h) db))
                  (sym (ap (λ (x : User). x.password_hash) b.same_user));
        }

    pub login-stored :
        (with_session (attempt_login platform c draw) db).1 ≡ append_session s (store_user u db)
    login-stored =
        let b = success-Started in
        b.stored ∙ ap (λ x. append_session s (store_user x db)) (sym b.same_user)

    -- The session of the login, as its token finds it.
    pub login-presented :
        (at : Datetime)
        → non_empty raw ≡ true
        → presented platform raw at (with_session (attempt_login platform c draw) db).1 ≡ some s
    login-presented at token =
        let b = success-Started in
        let hash : hash_token platform raw ≡ s.token_hash =
          ap (hash_token platform) b.same_token
          ∙ sym (ap (λ (x : Session). x.token_hash) b.same_session) in
        rw (token, b.stored, hash) (by_token_hash-append s (store_user signed db) b.accepted)

    pub login-IsUsable :
        (at : Datetime)
        → at ≤ draw.issue.now + days session_ttl_days
        → at ≤ draw.issue.db_now + days idle_timeout_days
        → IsUsable at s
    login-IsUsable at expiry idle =
        let b = success-Started in
        record {
          not_revoked = ap (λ (x : Session). x.revoked_at) b.same_session;
          not_expired = omega (arith, ap (λ (x : Session). x.expires_at) b.same_session);
          not_idle = omega (arith, ap (λ (x : Session). x.last_seen_at) b.same_session);
        }

    pub login-active : u.is_active ≡ true
    unfolding signed
    login-active = ap (λ (x : User). x.is_active) success-Started.same_user ∙ reached.active

    -- The returned user is the row that the login leaves for that id, where ids are unique.
    pub login-get_user :
        (user : User)
        → by_email (normalized platform c.email) db ≡ some user
        → get_user user.id db ≡ some user
        → get_user s.user_id (with_session (attempt_login platform c draw) db).1 ≡ some u
    unfolding signed get_user
    login-get_user user e one =
        let b = success-Started in
        let same : reached.user ≡ user = cc (reached.found, e) in
        let at_row : scalar (λ r. r.id == reached.user.id) db.users ≡ some reached.user =
          rw same one in
        let stored = store_user signed db in
        let base : scalar (λ r. r.id == signed.id) stored.users ≡ some signed =
          scalar-update (λ r. r.id == signed.id) (λ r. r.id == signed.id) (write_user signed)
            (λ x. refl) db.users at_row (==_refl signed.id) in
        ap (λ (x : Db). scalar (λ r. r.id == s.user_id) x.users) b.stored
        ∙ ap (λ i. scalar (λ r. r.id == i) stored.users)
            (ap (λ (x : Session). x.user_id) b.same_session)
        ∙ base
        ∙ ap some (sym b.same_user)

    -- The token that a successful login returns is accepted by `lookup_session` within thirty days of
    -- its issue and seven days of the new row's `last_seen_at`, if it is not empty: the session that
    -- comes back is the one of the login.
    pub login_lookup :
        (at : Datetime)
        → non_empty raw ≡ true
        → at ≤ draw.issue.now + days session_ttl_days
        → at ≤ draw.issue.db_now + days idle_timeout_days
        → (with_session
            (lookup_session platform raw at)
            (with_session (attempt_login platform c draw) db).1).0
          ≡ ok (some (debounced at s))
    login_lookup at token expiry idle =
        (lookup_session_iff platform raw at _ (debounced at s)).1
          (s, login-presented at token, login-IsUsable at expiry idle, refl)
