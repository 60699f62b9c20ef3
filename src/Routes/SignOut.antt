-- ===== src/Routes/SignOut.antt =====
-- What `POST /logout` leaves of the session that the cookie stands for.
use specter_cloud.Prelude.{
  All-Any, ◌≡◌, ◌≢◌, ◌∙◌, refl, ap, sym, inl, inr, Text, Bool, true, Option, none, some, Any,
  All-at, scalar-some, Any-map_fun, Any-witness, All-each, subst,
}
use specter_cloud.Platform.{Platform}
use specter_cloud.Models.{Datetime, User, Session}
use specter_cloud.Store.{Db, Result, ok, with_session, with_session-settled, after}
use specter_cloud.Sessions.{by_token_hash, hash_token, revoke_session}
use specter_cloud.Sessions.Lookup.{
  IsUsable, is_live_iff, presented, presented-row, debounced, debounced_db, looked_up,
  lookup_session_lem,
}
use specter_cloud.Sessions.Steps.{Reach, start, next, look_up, revoke}
use specter_cloud.Sessions.Holds.{Holds, IsRevoked, Reach-Holds, revoke_session-Holds}
use specter_cloud.Sessions.Unique.{IsDistinct, IsDistinct-same, Reach-IsDistinct}
use specter_cloud.Dependencies.{raw_token, get_current_user}
use specter_cloud.Dependencies.CurrentUser.{
  presented-by_token_hash, IsAuthenticated, get_current_user-IsAuthenticated,
}
use specter_cloud.Dependencies.Authenticated.{get_current_user-settled}
use specter_cloud.Routes.{logout_row, end_session, logout, session_cookie_name}
use specter_cloud.Routes.Audited.{append_audit}
use specter_cloud.Routes.Ending.{
  debounced-found, debounced-hash, debounced-revoked, debounced_db-user_exists,
  revoke_session-active, end_session-settled, reason, signed_out,
}

abbrev presented_by : Platform → Datetime → Db → Option Text → Option Session
presented_by platform now db none = none
presented_by platform now db (some raw) = presented platform raw now db

-- With a cookie, the row of an authenticated request is that of the cookie.
cookie-presented :
    (platform : Platform) (t : Text) (authorization : Option Text) (now : Datetime) (db : Db)
    (u : User) (a : IsAuthenticated platform (some t) authorization now db u)
    → presented platform t now db ≡ some a.row
unfolding raw_token
cookie-presented platform t authorization now db u a =
    ap (presented_by platform now db) a.credential ∙ a.found

module _ (platform : Platform) (t : Text) (authorization : Option Text) (now later : Datetime)
    (db : Db) (u : User) (distinct : IsDistinct db.sessions)
    (a : IsAuthenticated platform (some t) authorization now db u) where
  abbrev d : Session
  d = debounced now a.row

  abbrev looked : Db
  looked = debounced_db now a.row db

  abbrev ended : Db
  ended = signed_out later d looked

  presents : presented platform t now db ≡ some a.row
  presents = cookie-presented platform t authorization now db u a

  looked-Reach : Reach platform db looked
  looked-Reach =
      subst (Reach platform db)
        (ap (λ o. o.1) (lookup_session_lem platform t now db)
          ∙ ap (λ o. (looked_up now o db).1) presents
          ∙ live)
        (next start (look_up t now))
    where
      live : (looked_up now (some a.row) db).1 ≡ looked
      live = rw ((is_live_iff now a.row).1 a.usable) refl

  by_hash : by_token_hash (hash_token platform t) looked ≡ some d
  by_hash =
      debounced-found now (hash_token platform t) db a.row
        (presented-by_token_hash platform t now db a.row presents).1

  looked-IsDistinct : IsDistinct looked.sessions
  looked-IsDistinct = Reach-IsDistinct looked-Reach distinct

  looked-row : Any (λ r. r ≡ d) looked.sessions
  unfolding by_token_hash
  looked-row = (scalar-some _ looked.sessions by_hash).1

  looked-revoked_at : d.revoked_at ≡ none
  looked-revoked_at = debounced-revoked now a.row ∙ a.usable.not_revoked

  revocation : with_session (revoke_session d.id reason later) looked ≡ (ok true, ended)
  revocation = with_session-settled (revoke_session d.id reason later) looked (
      revoke_session-active platform t later u looked d
        (presented-by_token_hash platform t now db a.row presents).0 by_hash looked-revoked_at
        looked-IsDistinct (debounced_db-user_exists now a.row u db a.of_row))

  logout_run :
      with_session (logout platform (some t) authorization now later) db
      ≡ (ok session_cookie_name, append_audit (logout_row u) ended)
  unfolding logout
  logout_run = with_session-settled (logout platform (some t) authorization now later) db (
      ap (λ o. after o (end_session platform (some t) later))
        (get_current_user-settled platform (some t) authorization now db u a)
      ∙ end_session-settled platform t later u looked d
          (presented-by_token_hash platform t now db a.row presents).0 by_hash looked-revoked_at
          looked-IsDistinct (debounced_db-user_exists now a.row u db a.of_row))

  ended-Reach : Reach platform looked ended
  ended-Reach =
      subst (Reach platform looked) (ap (λ o. o.1) revocation)
        (next start (revoke d.id reason later))

  abbrev final : Db
  final = append_audit (logout_row u) ended

  final-IsDistinct : IsDistinct final.sessions
  final-IsDistinct = Reach-IsDistinct ended-Reach looked-IsDistinct

  final-IsRevoked : Holds (IsRevoked later reason) d.id final
  final-IsRevoked =
      let holds =
        subst (λ (o : Result Bool × Db). Holds (IsRevoked later reason) d.id o.1) revocation
          (revoke_session-Holds d.id reason later looked (ap (λ o. o.0) revocation)) in
      record { everywhere = holds.everywhere; present = holds.present }

  abbrev HasHash : Session → Type 0
  HasHash r = r.token_hash ≡ hash_token platform t

  final-hash : Holds HasHash d.id final
  final-hash =
      let at_first : Holds HasHash d.id looked = record {
        everywhere = All-each looked.sessions (λ r m e.
            ap (λ (x : Session). x.token_hash)
              (IsDistinct-same looked-IsDistinct m looked-row (inl e))
            ∙ debounced-hash now a.row
            ∙ (presented-row platform t now db a.row presents).0);
        present = Any-map_fun (λ r e. ap (λ (x : Session). x.id) e) looked-row;
      } in
      let holds =
        Reach-Holds HasHash (λ now r q. q) (λ now why r s p active q. q) d.id ended-Reach
          at_first in
      record { everywhere = holds.everywhere; present = holds.present }

  token_rejected :
      (db' : Db)
      → Reach platform final db'
      → (at : Datetime) (row : Session) → presented platform t at db' ≡ some row
      → IsUsable at row
      → ⊥
  token_rejected db' reach at row found usable =
      let is_revoked =
        Reach-Holds (IsRevoked later reason) (λ now r q. q)
          (λ now why r s q active. absurd (cc (q.0, active))) d.id reach final-IsRevoked in
      let hashed =
        Reach-Holds HasHash (λ now r q. q) (λ now why r s p active q. q) d.id reach final-hash in
      let (same_hash, m) = presented-row platform t at db' row found in
      let (w, wm, both) = Any-witness (All-Any hashed.everywhere hashed.present) in
      let one =
        IsDistinct-same (Reach-IsDistinct reach final-IsDistinct) m wm
          (inr (same_hash ∙ sym (both.1 both.0))) in
      let q = All-at is_revoked.everywhere m (ap (λ (x : Session). x.id) one ∙ both.0) in
      absurd (cc (q.0, usable.not_revoked))

-- If the keys of the sessions are distinct to begin with, a logout with a cookie that authenticates succeeds,
-- and no sequence of session requests after it lets a request through with that cookie again, whatever its
-- Authorization header.
pub logout_final :
    (platform : Platform) (t : Text) (authorization : Option Text) (now later : Datetime)
    (db db' : Db) (u : User)
    → IsDistinct db.sessions
    → (with_session (get_current_user platform (some t) authorization now) db).0 ≡ ok u
    → Reach platform (with_session (logout platform (some t) authorization now later) db).1 db'
    → ((with_session (logout platform (some t) authorization now later) db).0
        ≡ ok session_cookie_name)
      × ((header : Option Text) (at : Datetime) (v : User)
          → (with_session (get_current_user platform (some t) header at) db').0 ≢ ok v)
logout_final platform t authorization now later db db' u distinct h reach =
    let a = (get_current_user-IsAuthenticated platform (some t) authorization now db u).0 h in
    let run = logout_run platform t authorization now later db u distinct a in
    (
      ap (λ o. o.0) run,
      λ header at v accepted.
          let b = (get_current_user-IsAuthenticated platform (some t) header at db' v).0 accepted in
          token_rejected platform t authorization now later db u distinct a db'
            (subst (λ (o : Result Text × Db). Reach platform o.1 db') run reach) at b.row
            (cookie-presented platform t header at db' v b) b.usable,
    )
