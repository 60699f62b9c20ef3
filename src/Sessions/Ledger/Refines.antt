-- ===== src/Sessions/Ledger/Refines.antt =====
-- The tables that the session requests leave refine the ledger.
use specter_cloud.Prelude.{
  text_eq→eq, text_eq_iff, scalar-none, All-at, scalar, ◌↔◌, subst, ◌≡◌, ◌∙◌, refl, ap, sym, inl,
  inr, Text, Bool, true, false, Option, none, some, List, scalar-some, Option-cases, ◌==◌,
  if◌then◌else◌,
}
use specter_cloud.Platform.{Platform}
use specter_cloud.Models.{Datetime, Session}
use specter_cloud.Store.{with_session, Db, ok}
use specter_cloud.Sessions.{text_eq, by_token_hash, hash_token, non_empty}
use specter_cloud.Sessions.Lookup.{
  lookup_session_iff, debounced, IsUsable, presented, presented-row,
}
use specter_cloud.Sessions.Unique.{IsDistinct-same, IsDistinct}
use specter_cloud.Sessions.Ledger.Replies.{run-replay, run-IsDistinct}
use specter_cloud.Sessions.Ledger.{Ledger, lookup_session, SessionRequest, replay, view, run}
use specter_cloud.Sessions.Ledger.Entries.{view-row}

-- The ledger has a usable session with the token's hash, which a lookup returns as `s`.
abbrev pub Presents : Platform → Text → Datetime → Ledger → Session → Type 0
Presents platform raw now ledger s =
    (row : Session) × (ledger row.id ≡ some row)
    × (non_empty raw ≡ true)
    × (row.token_hash ≡ hash_token platform raw)
    × IsUsable now row
    × (s ≡ debounced now row)

module _ (platform : Platform) (raw : Text) (now : Datetime) (db : Db)
    (distinct : IsDistinct db.sessions) where
  presented-view :
      (row : Session)
      → presented platform raw now db ≡ some row
      → (view db row.id ≡ some row)
        × (non_empty raw ≡ true)
        × (row.token_hash ≡ hash_token platform raw)
  presented-view row e =
      let (hash, m) = presented-row platform raw now db row e in
      (view-row db row distinct m, is_presented (non_empty raw) _ e, hash)
    where
      is_presented : (b : Bool) (o : Option Session) → (if b then o else none) ≡ some row → b ≡ true
      is_presented true o e = refl
      is_presented false o e = cc

  view-presented :
      (row : Session)
      → view db row.id ≡ some row
      → non_empty raw ≡ true
      → row.token_hash ≡ hash_token platform raw
      → presented platform raw now db ≡ some row
  unfolding by_token_hash
  view-presented row entry token hash =
      let p = λ (r : Session). text_eq r.token_hash (hash_token platform raw) in
      let m = (scalar-some (λ r. r.id == row.id) db.sessions entry).1 in
      rw token (elim (Option-cases (scalar p db.sessions)) [
        | inl missing ↦ absurd (
            cc (
              All-at (scalar-none p db.sessions missing) m,
              (text_eq_iff row.token_hash (hash_token platform raw)).1 hash,
            ))
        | inr (r, found) ↦
            let (t, in_rows) = scalar-some p db.sessions found in
            found
            ∙ ap some (
                IsDistinct-same distinct in_rows m
                  (inr (text_eq→eq r.token_hash (hash_token platform raw) t ∙ sym hash)))
      ])

  -- A lookup reads the ledger.
  lookup-view :
      (s : Session)
      → ((with_session (lookup_session platform raw now) db).0 ≡ ok (some s))
        ↔ Presents platform raw now (view db) s
  lookup-view s = (
    λ h.
        let (row, found, usable, same_row) = (lookup_session_iff platform raw now db s).0 h in
        let (entry, token, hash) = presented-view row found in
        (row, entry, token, hash, usable, same_row),
    λ (row, entry, token, hash, usable, same_row).
        (lookup_session_iff platform raw now db s).1
          (row, view-presented row entry token hash, usable, same_row),
  )

-- A run of session requests leaves the tables that its replies describe: the session of each id is the one that
-- was returned last, with the revocations that were acknowledged since. A lookup then returns exactly the usable
-- sessions of that ledger with the token's hash, with `last_seen_at` moved as its debounce says. It holds from
-- tables in which ids and token hashes are unique.
pub run_refines :
    (platform : Platform) (requests : List SessionRequest) (db : Db)
    → IsDistinct db.sessions
    → let (events, last) = run platform requests db in
      (view last ≡ replay events (view db))
      × ((raw : Text) (now : Datetime) (s : Session)
          → ((with_session (lookup_session platform raw now) last).0 ≡ ok (some s))
            ↔ Presents platform raw now (replay events (view db)) s)
run_refines platform requests db distinct =
    let last = (run platform requests db).1 in
    let e = run-replay platform requests db distinct in
    (
      e,
      λ raw now s.
          subst
            (λ (ledger : Ledger).
              ((with_session (lookup_session platform raw now) last).0 ≡ ok (some s))
              ↔ Presents platform raw now ledger s)
            e (lookup-view platform raw now last (run-IsDistinct platform requests db distinct) s),
    )
