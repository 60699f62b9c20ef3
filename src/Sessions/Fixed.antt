-- ===== src/Sessions/Fixed.antt =====
-- What no later request changes of a session: its hard expiry, and its revocation.
use specter_cloud.Prelude.{
  ◌+◌, ◌≤◌, ◌≡◌, ◌≢◌, ◌∙◌, refl, ap, sym, inl, inr, Text, true, ◌&&◌, Option, some, All, nil, cons,
  here, All-at, All-map_fun, Any-append_right, All-append, arith, &&_iff, Bool-cases,
}
use specter_cloud.Platform.{Platform}
use specter_cloud.Models.{Uuid, Datetime, SessionTransport, Session}
use specter_cloud.Store.{Db, ok, with_session}
use specter_cloud.Sessions.{
  Issue, new_session, days, session_ttl_days, hash_token, session_fits, session_refers,
  lookup_session, revoke_session,
}
use specter_cloud.Sessions.Keys.{session_refers-IsApart}
use specter_cloud.Sessions.Lookup.{lookup_session_iff, IsUsable, presented-row, debounced-id}
use specter_cloud.Sessions.Steps.{Reach, issued, issued_session, issued_lem}
use specter_cloud.Sessions.Holds.{Holds, IsRevoked, Reach-Holds, revoke_session-Holds}

abbrev ExpiresAt : Datetime → Session → Type 0
ExpiresAt t r = r.expires_at ≡ t

-- The row that a lookup returns satisfies what all rows with its id satisfy.
lookup_session-Holds :
    {Q : Session → Type 0} (platform : Platform) (raw : Text) (now : Datetime) (id : Uuid) (db : Db)
    (s : Session)
    → Holds Q id db
    → (with_session (lookup_session platform raw now) db).0 ≡ ok (some s)
    → s.id ≡ id
    → (row : Session) × Q row × IsUsable now row
lookup_session-Holds platform raw now id db s holds h e =
    let (row, found, usable, same_row) = (lookup_session_iff platform raw now db s).0 h in
    let (_, m) = presented-row platform raw now db row found in
    let same_id : row.id ≡ id =
      sym (debounced-id now row) ∙ ap (λ (r : Session). r.id) (sym same_row) ∙ e in
    (row, All-at holds.everywhere m same_id, usable)

-- An issued session is the only row with its id.
issued_session-Holds :
    (raw : Text) (s issued_row : Session) (db : Db)
    → (issued_session raw issued_row db).0 ≡ ok (raw, s)
    → (s ≡ issued_row)
      × Holds (ExpiresAt issued_row.expires_at) issued_row.id (issued_session raw issued_row db).1
issued_session-Holds raw s row db h =
    elim (Bool-cases (session_fits row && session_refers db row)) [
      | inl both ↦
          let (short, accepted) = (&&_iff (session_fits row) (session_refers db row)).0 both in
          (
            ground arith,
            rw (short, accepted)
                (record {
                  everywhere =
                      All-append
                        (All-map_fun (λ r apart e. absurd (apart.0 e))
                          (session_refers-IsApart db row accepted))
                        (cons (λ _. refl) nil);
                  present = Any-append_right db.sessions (here refl);
                }),
          )
      | inr not_both ↦ absurd (ground arith)
    ]

-- Once a revocation has succeeded, no sequence of session requests restores the session, changes the moment
-- or the reason of its revocation, or lets a token look it up.
pub revocation_final :
    (platform : Platform) (id : Uuid) (reason : Text) (at : Datetime) (db db' : Db)
    → (with_session (revoke_session id reason at) db).0 ≡ ok true
    → Reach platform (with_session (revoke_session id reason at) db).1 db'
    → All (λ r. r.id ≡ id → IsRevoked at reason r) db'.sessions
      × ((raw : Text) (now : Datetime) (s : Session)
          → (with_session (lookup_session platform raw now) db').0 ≡ ok (some s)
          → s.id ≢ id)
revocation_final platform id reason at db db' h reach =
    let holds : Holds (IsRevoked at reason) id db' =
      Reach-Holds (IsRevoked at reason) (λ now r q. q)
        (λ now why r s q active. absurd (cc (q.0, active))) id reach
        (revoke_session-Holds id reason at db h) in
    (
      holds.everywhere,
      λ raw now s found e.
          let (row, q, usable) = lookup_session-Holds platform raw now id db' s holds found e in
          absurd (cc (q.0, usable.not_revoked)),
    )

-- However it is used, a session is not looked up after the thirty days that it was issued for.
pub expiry_final :
    (platform : Platform) (user_id : Uuid) (transport : SessionTransport)
    (user_agent ip_address : Option Text) (draw : Issue) (db db' : Db) (s : Session)
    → (with_session (issued platform user_id transport user_agent ip_address draw) db).0
      ≡ ok (draw.drawn, s)
    → Reach platform
        (with_session (issued platform user_id transport user_agent ip_address draw) db).1
        db'
    → (raw : Text) (now : Datetime) (found : Session)
    → (with_session (lookup_session platform raw now) db').0 ≡ ok (some found)
    → found.id ≡ s.id
    → now ≤ draw.now + days session_ttl_days
expiry_final platform user_id transport user_agent ip_address draw db db' s h reach raw now found l
      e =
    let row =
      new_session (hash_token platform draw.drawn) user_id transport user_agent ip_address draw in
    let (same_row, holds) = issued_session-Holds draw.drawn s row db (rw issued_lem at h) in
    let later =
      Reach-Holds (ExpiresAt row.expires_at) (λ now r q. q) (λ now why r s p active q. q) row.id
        reach (rw issued_lem holds) in
    let (at_lookup, expires, usable) =
      lookup_session-Holds platform raw now row.id db' found later l
        (e ∙ ap (λ (x : Session). x.id) same_row) in
    omega (arith, expires, usable.not_expired)
