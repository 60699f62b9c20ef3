-- ===== src/Sessions/Holds.antt =====
-- What requests keep of the rows with an id, and what a revocation writes there.
use specter_cloud.Prelude.{
  ◌≡◌, ◌∙◌, refl, ap, sym, inl, inr, Text, true, ◌&&◌, Option, none, some, Any, All, nil, cons,
  All-at, All-Any, Any-witness, Any-append_left, All-update, All-update_cases, Any-update,
  All-append, arith, scalar-some, leb, length, ◌==◌, ==_iff, &&_iff, is_none, Bool-cases,
}
use specter_cloud.Platform.{Platform}
use specter_cloud.Models.{Uuid, Datetime, SessionTransport, Session}
use specter_cloud.Store.{Db, ok, with_session}
use specter_cloud.Sessions.{
  session_refers, append_session, seen, revoked, is_target, revoke_session,
}
use specter_cloud.Sessions.Keys.{session_refers-IsApart}
use specter_cloud.Sessions.Requests.{revoked_found, revoke_session_lem}
use specter_cloud.Sessions.Steps.{
  Change, same, added, touched, revoked_one, revoked_many, Reach, start, next, Step-Change,
}

-- Every row with the id satisfies `Q`, and there is one.
pub record Holds (Q : Session → Type 0) (id : Uuid) (db : Db) : Type 0 where
  pub everywhere : All (λ r. r.id ≡ id → Q r) db.sessions
  pub present : Any (λ r. r.id ≡ id) db.sessions

module _ (Q : Session → Type 0) (seen_keeps : (now : Datetime) (r : Session) → Q r → Q (seen now r))
    (revoked_keeps : (now : Datetime) (reason : Text) (r s : Session)
      → Q s
      → s.revoked_at ≡ none
      → Q r
      → Q (revoked now reason r))
    (id : Uuid) where
  is_target-active :
      (user_id : Uuid) (t : Option SessionTransport) (r : Session)
      → is_target user_id t r ≡ true
      → r.revoked_at ≡ none
  unfolding is_target
  is_target-active user_id none r h = ground arith
  is_target-active user_id (some t) r h = ground arith

  added-Holds :
      (s : Session) (db : Db)
      → session_refers db s ≡ true
      → Holds Q id db
      → Holds Q id (append_session s db)
  added-Holds s db h holds = record {
    everywhere = All-append holds.everywhere (
        cons
          (λ e.
            let (r, _, both) =
              Any-witness (All-Any (session_refers-IsApart db s h) holds.present) in
            absurd (both.1.0 (both.0 ∙ sym e)))
          nil);
    present = Any-append_left _ holds.present;
  }

  Change-Holds : {db db' : Db} → Change db db' → Holds Q id db → Holds Q id db'
  Change-Holds (same e) h = rw e h
  Change-Holds {db} (added s short accepted e) h = rw e (added-Holds s db accepted h)
  Change-Holds (touched now s e) h = rw e (record {
    everywhere = All-update _ (seen now) (λ r t q i. seen_keeps now r (q i)) h.everywhere;
    present = Any-update _ (seen now) (λ r t i. i) (λ r t i. i) h.present;
  })
  Change-Holds (revoked_one now reason s m active e) h = rw e (record {
    everywhere =
        All-update _ (revoked now reason)
          (λ r t q i.
            revoked_keeps now reason r s (All-at h.everywhere m (sym ((==_iff _ _).0 t) ∙ i)) active
              (q i))
          h.everywhere;
    present = Any-update _ (revoked now reason) (λ r t i. i) (λ r t i. i) h.present;
  })
  Change-Holds (revoked_many now reason user_id t e) h = rw e (record {
    everywhere =
        All-update (is_target user_id t) (revoked now reason)
          (λ r p q i. revoked_keeps now reason r r (q i) (is_target-active user_id t r p) (q i))
          h.everywhere;
    present = Any-update _ (revoked now reason) (λ r t i. i) (λ r t i. i) h.present;
  })

  pub Reach-Holds :
      {platform : Platform} {db db' : Db} → Reach platform db db' → Holds Q id db → Holds Q id db'
  Reach-Holds start h = h
  Reach-Holds (next r s) h = Change-Holds (Step-Change s) (Reach-Holds r h)

-- the first revocation of a session, with its reason
abbrev pub IsRevoked : Datetime → Text → Session → Type 0
IsRevoked now reason r = (r.revoked_at ≡ some now) × (r.revoked_reason ≡ some reason)

revoked_found-Holds :
    (reason : Text) (now : Datetime) (id : Uuid) (o : Option Session) (db : Db)
    → ((s : Session) → o ≡ some s → (s.id ≡ id) × Any (λ r. r ≡ s) db.sessions)
    → (revoked_found reason now o db).0 ≡ ok true
    → Holds (IsRevoked now reason) id (revoked_found reason now o db).1
revoked_found-Holds reason now id none db found h = absurd (cc)
revoked_found-Holds reason now id (some s) db found h =
    elim (Bool-cases (is_none s.revoked_at && leb (length reason) 40)) [
      | inl both ↦
          let (active, short) = (&&_iff (is_none s.revoked_at) (leb (length reason) 40)).0 both in
          let (same_id, m) = found s refl in
          rw (active, short)
            (record {
              everywhere =
                  All-update_cases (λ r. r.id == s.id) (revoked now reason) db.sessions
                    (λ r _ t i. (refl, refl))
                    (λ r _ f i. absurd (cc ((==_iff r.id s.id).1 (i ∙ sym same_id), f)));
              present =
                  Any-update (λ r. r.id == s.id) (revoked now reason)
                    (λ r _ e. ap (λ (x : Session). x.id) e ∙ same_id)
                    (λ r _ e. ap (λ (x : Session). x.id) e ∙ same_id) m;
            })
      | inr not_both ↦ absurd (ground arith)
    ]

pub revoke_session-Holds :
    (id : Uuid) (reason : Text) (now : Datetime) (db : Db)
    → (with_session (revoke_session id reason now) db).0 ≡ ok true
    → Holds (IsRevoked now reason) id (with_session (revoke_session id reason now) db).1
revoke_session-Holds id reason now db h = rw revoke_session_lem (
    revoked_found-Holds reason now id _ db
      (λ s e. let (t, m) = scalar-some (λ r. r.id == id) db.sessions e in ((==_iff s.id id).0 t, m))
      (rw revoke_session_lem at h))
