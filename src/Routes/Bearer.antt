-- ===== src/Routes/Bearer.antt =====
-- A logout with a bearer token and no cookie.
use specter_cloud.Prelude.{
  Bool, List, codes, sym, subst, ◌++◌, ◌==◌, map, update, ◌≡◌, ◌∙◌, refl, ap, inl, inr, Text,
  Option, none, some, Bool-cases, arith, [], ◌∷◌, ltb, ◌+◌,
}
use specter_cloud.Platform.{Platform}
use specter_cloud.Models.{AuditLog, Datetime, User, Session}
use specter_cloud.Store.{
  Result, Db, ok, settled, with_session, with_session-settled, after, refused,
}
use specter_cloud.Sessions.{by_token_hash, hash_token, minutes, last_seen_debounce_minutes}
use specter_cloud.Sessions.Lookup.{IsUsable, presented, debounced, debounced_db}
use specter_cloud.Dependencies.{get_user, get_current_user}
use specter_cloud.Dependencies.CurrentUser.{
  presented-by_token_hash, debounced-users, debounced-user, IsAuthenticated,
  get_current_user-IsAuthenticated,
}
use specter_cloud.Dependencies.Authenticated.{get_current_user-settled}
use specter_cloud.Routes.{revoke_current, logout_row, end_session, logout, session_cookie_name}
use specter_cloud.Routes.Audited.{recorded_by, append_audit, write_then-settled}
use specter_cloud.Routes.Ending.{debounced-found, debounced_db-user_exists}

debounced-IsUsable :
    (now : Datetime) (s : Session) → IsUsable now s → IsUsable now (debounced now s)
debounced-IsUsable now s usable =
    elim (Bool-cases (ltb (s.last_seen_at + minutes last_seen_debounce_minutes) now)) [
      | inl stale ↦ rw stale (record {
        not_revoked = usable.not_revoked;
        not_expired = usable.not_expired;
        not_idle = omega arith;
      })
      | inr fresh ↦ rw fresh usable
    ]

module _ (platform : Platform) (authorization : Option Text) (now later : Datetime) (db : Db)
    (u : User) (a : IsAuthenticated platform none authorization now db u) where
  abbrev looked : Db
  looked = debounced_db now a.row db

  logout_row-accepted : refused looked (logout_row u ∷ []) ≡ none
  unfolding refused
  logout_row-accepted = rw (debounced_db-user_exists now a.row u db a.of_row) refl

  logout_run :
      with_session (logout platform none authorization now later) db
      ≡ (ok session_cookie_name, append_audit (logout_row u) looked)
  unfolding logout end_session revoke_current
  logout_run = with_session-settled (logout platform none authorization now later) db (
      ap (λ o. after o (end_session platform none later))
        (get_current_user-settled platform none authorization now db u a)
      ∙ write_then-settled (logout_row u) (ok session_cookie_name) looked (inl refl)
      ∙ ap (λ o. settled (recorded_by o (logout_row u) (ok session_cookie_name) looked))
          logout_row-accepted)

  still_presented :
      presented platform a.raw now (append_audit (logout_row u) looked) ≡ some (debounced now a.row)
  unfolding by_token_hash
  still_presented =
      let (token, found) = presented-by_token_hash platform a.raw now db a.row a.found in
      rw token (debounced-found now (hash_token platform a.raw) db a.row found)

  still_get_user :
      get_user (debounced now a.row).user_id (append_audit (logout_row u) looked) ≡ some u
  unfolding get_user
  still_get_user =
      ap (λ i. get_user i looked) (debounced-user now a.row)
      ∙ debounced-users now a.row a.row.user_id db
      ∙ a.of_row

  still : IsAuthenticated platform none authorization now (append_audit (logout_row u) looked) u
  still = record {
    raw = a.raw;
    row = debounced now a.row;
    credential = a.credential;
    found = still_presented;
    usable = debounced-IsUsable now a.row a.usable;
    of_row = still_get_user;
    active = a.active;
  }

-- a session apart from the moment of its last use
abbrev pub unseen : Session → Session
unseen s = record s { last_seen_at = 0 }

map-update :
    (p : Session → Bool) (f : Session → Session)
    → ((s : Session) → unseen (f s) ≡ unseen s)
    → (xs : List Session) → map unseen (update p f xs) ≡ map unseen xs
unfolding update
map-update p f kept [] = refl
map-update p f kept (x ∷ xs) = elim (Bool-cases (p x)) [
  | inl changed ↦ rw (changed, kept x) (ap (λ ys. unseen x ∷ ys) (map-update p f kept xs))
  | inr left ↦ rw left (ap (λ ys. unseen x ∷ ys) (map-update p f kept xs))
]

debounced_db-unseen :
    (now : Datetime) (s : Session) (db : Db)
    → map unseen (debounced_db now s db).sessions ≡ map unseen db.sessions
debounced_db-unseen now s db =
    elim (Bool-cases (ltb (s.last_seen_at + minutes last_seen_debounce_minutes) now)) [
      | inl stale ↦ rw stale (map-update (λ r. r.id == s.id) _ (λ r. refl) db.sessions)
      | inr fresh ↦ rw fresh refl
    ]

debounced_db-only :
    (now : Datetime) (s : Session) (db : Db)
    → debounced_db now s db ≡ record db { sessions = (debounced_db now s db).sessions }
debounced_db-only now s db =
    elim (Bool-cases (ltb (s.last_seen_at + minutes last_seen_debounce_minutes) now)) [
      | inl stale ↦ rw stale refl
      | inr fresh ↦ rw fresh refl
    ]

-- what a logout that revokes nothing leaves: one more audit row, and sessions that are as they were but for the
-- moment of their last use
pub record Unrevoked (db after : Db) (u : User) : Type 0 where
  pub row : AuditLog
  pub action : row.action ≡ codes "logout"
  pub decision : row.decision ≡ codes "allow"
  pub user_id : row.user_id ≡ some u.id
  pub sessions : map unseen after.sessions ≡ map unseen db.sessions
  pub nothing_else :
      after ≡ record db { sessions = after.sessions; audit_log = db.audit_log ++ row ∷ [] }

-- Without a cookie, a logout with a bearer token answers as usual and revokes no session, of whichever user: it
-- adds an audit row for the user, and changes nothing else but the moments of last use. A request with the same
-- header is let through as before.
pub bearer_logout :
    (platform : Platform) (authorization : Option Text) (now later : Datetime) (db : Db) (u : User)
    → (with_session (get_current_user platform none authorization now) db).0 ≡ ok u
    → ((with_session (logout platform none authorization now later) db).0 ≡ ok session_cookie_name)
      × Unrevoked db (with_session (logout platform none authorization now later) db).1 u
      × ((with_session
            (get_current_user platform none authorization now)
            (with_session (logout platform none authorization now later) db).1).0
          ≡ ok u)
bearer_logout platform authorization now later db u h =
    let a = (get_current_user-IsAuthenticated platform none authorization now db u).0 h in
    let run = logout_run platform authorization now later db u a in
    let unrevoked : Unrevoked db (append_audit (logout_row u) (debounced_db now a.row db)) u =
      record {
        row = logout_row u;
        action = refl;
        decision = refl;
        user_id = refl;
        sessions = debounced_db-unseen now a.row db;
        nothing_else =
            ap (λ (d : Db). record d { audit_log = d.audit_log ++ logout_row u ∷ [] })
              (debounced_db-only now a.row db);
      } in
    (
      ap (λ o. o.0) run,
      subst (λ (o : Result Text × Db). Unrevoked db o.1 u) (sym run) unrevoked,
      ap (λ o. (with_session (get_current_user platform none authorization now) o.1).0) run
          ∙ (get_current_user-IsAuthenticated platform none authorization now _ u).1
              (still platform authorization now later db u a),
    )
