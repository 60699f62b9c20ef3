-- ===== src/Sessions/Ledger/Replies.antt =====
-- What the reply of each request says of the entries of the tables that it leaves.
use mathlib.Core.Path.{fun_ext}
use specter_cloud.Prelude.{
  arith, ◌+◌, Any-map_fun, Any-select, subst, ◌≡◌, ◌∙◌, refl, ap, sym, inl, inr, Text, Bool, false,
  Option, none, some, List, [], ◌∷◌, select, Any, length, leb, ltb, scalar-some, Bool-cases,
  Option-cases, ==_iff, ◌==◌, if◌then◌else◌,
}
use specter_cloud.Platform.{Platform}
use specter_cloud.Models.{Uuid, Datetime, SessionTransport, Session}
use specter_cloud.Store.{Db}
use specter_cloud.Sessions.{
  minutes, last_seen_debounce_minutes, is_live, seen, revoked, session_fits, session_refers,
  is_target,
}
use specter_cloud.Sessions.Requests.{
  revoked_found, revoked_rows, revoke_session_lem, revoke_all_lem,
}
use specter_cloud.Sessions.Lookup.{presented, presented-row, looked_up, lookup_session_lem}
use specter_cloud.Sessions.Steps.{start, next, Step, issued_session, issued_lem}
use specter_cloud.Sessions.Unique.{Reach-IsDistinct, IsDistinct}
use specter_cloud.Sessions.Ledger.{
  with_end, is_open_of, revoke_all, revoke, look_up, issue, SessionRequest, on_issue, on_lookup,
  on_revoke, on_revoke_all, changed, entered, replay, view, handle, run,
}
use specter_cloud.Sessions.Ledger.Entries.{
  scalar-update-changed, view-update, view-row, view-append,
}

issued-enters :
    (raw : Text) (s : Session) (db : Db) (id : Uuid)
    → let o = issued_session raw s db in view o.1 id ≡ entered (on_issue o.0) id (view db id)
issued-enters raw s db id = elim (Bool-cases (session_fits s)) [
  | inl short ↦ elim (Bool-cases (session_refers db s)) [
    | inl accepted ↦ rw (short, accepted) (view-append id s db accepted)
    | inr rejected ↦ rw (short, rejected) refl
  ]
  | inr long ↦ rw long refl
]

-- the entry of a row that stays as it is
entered-row :
    (db : Db) (s : Session) (id : Uuid)
    → view db s.id ≡ some s
    → view db id ≡ (if s.id == id then some s else view db id)
entered-row db s id found = elim (Bool-cases (s.id == id)) [
  | inl same_id ↦ rw same_id (ap (view db) (sym ((==_iff s.id id).0 same_id)) ∙ found)
  | inr other ↦ rw other refl
]

-- the entry of a row that is seen
entered-seen :
    (db : Db) (s : Session) (now : Datetime) (id : Uuid)
    → view db s.id ≡ some s
    → (if s.id == id then changed (seen now) (view db id) else view db id)
      ≡ (if s.id == id then some (seen now s) else view db id)
entered-seen db s now id found = elim (Bool-cases (s.id == id)) [
  | inl same_id ↦
      rw same_id (ap (changed (seen now)) (ap (view db) (sym ((==_iff s.id id).0 same_id)) ∙ found))
  | inr other ↦ rw other refl
]

looked_up-enters :
    (now : Datetime) (o : Option Session) (db : Db) (id : Uuid)
    → ((s : Session) → o ≡ some s → view db s.id ≡ some s)
    → let r = looked_up now o db in view r.1 id ≡ entered (on_lookup r.0) id (view db id)
looked_up-enters now none db id found = refl
looked_up-enters now (some s) db id found = elim (Bool-cases (is_live now s)) [
  | inl live ↦ elim (Bool-cases (ltb (s.last_seen_at + minutes last_seen_debounce_minutes) now)) [
    | inl stale ↦
        rw (live, stale)
          (view-update id s.id (seen now) (λ r. refl) db ∙ entered-seen db s now id (found s refl))
    | inr fresh ↦ rw (live, fresh) (entered-row db s id (found s refl))
  ]
  | inr dead ↦ rw dead refl
]

revoked-enters :
    (reason : Text) (now : Datetime) (at_id : Uuid) (o : Option Session) (db : Db) (id : Uuid)
    → ((s : Session) → o ≡ some s → s.id ≡ at_id)
    → let r = revoked_found reason now o db in
      view r.1 id ≡ entered (on_revoke at_id reason now r.0) id (view db id)
revoked-enters reason now at_id none db id found = refl
revoked-enters reason now at_id (some s) db id found = elim (Option-cases s.revoked_at) [
  | inl active ↦ elim (Bool-cases (leb (length reason) 40)) [
    | inl short ↦
        rw (active, short)
          (view-update id s.id (revoked now reason) (λ r. refl) db
            ∙ ap (λ i. if i == id then changed (revoked now reason) (view db id) else view db id)
                (found s refl))
    | inr long ↦ rw (active, long) refl
  ]
  | inr (t, before) ↦ rw before refl
]

-- No row passes a test that selects no rows.
select-nil :
    {A : Type 0} (p : A → Bool) (xs : List A) {x : A}
    → select p xs ≡ []
    → Any (λ y. y ≡ x) xs
    → p x ≡ false
select-nil p xs {x} e m = elim (Bool-cases (p x)) [
  | inl pass ↦ absurd (
      none_there (
        subst (Any (λ y. y ≡ x)) e
          (Any-select (λ y. y ≡ x) p xs (Any-map_fun (λ y same. (same, ap p same ∙ pass)) m))))
  | inr fail ↦ fail
]
  where
    none_there : {A : Type 0} {P : A → Type 0} → ¬ Any P []
    none_there a = elim a [ ]

unchanged :
    {A : Type 0} (p : A → Bool) (f : A → A) (o : Option A)
    → ((x : A) → o ≡ some x → p x ≡ false)
    → o ≡ changed (λ x. if p x then f x else x) o
unchanged p f none none_passes = refl
unchanged p f (some x) none_passes = rw (none_passes x refl) refl

-- The rows that a revocation of all sessions selects are the open ones of the user.
is_target-is_open_of :
    (user_id : Uuid) (transport : Option SessionTransport) (s : Session)
    → is_target user_id transport s ≡ is_open_of user_id transport s
unfolding is_target
is_target-is_open_of user_id none s = ground arith
is_target-is_open_of user_id (some t) s = ground arith

open_entry :
    (user_id : Uuid) (transport : Option SessionTransport) (reason : Text) (now : Datetime)
    (o : Option Session)
    → changed (λ s. if is_target user_id transport s then revoked now reason s else s) o
      ≡ changed (λ s. if is_open_of user_id transport s then with_end reason now s else s) o
open_entry user_id transport reason now none = refl
open_entry user_id transport reason now (some s) =
    ap (λ b. some (if b then with_end reason now s else s))
      (is_target-is_open_of user_id transport s)

all_revoked-enters :
    (user_id : Uuid) (reason : Text) (transport : Option SessionTransport) (now : Datetime)
    (rows : List Session) (db : Db) (id : Uuid)
    → select (is_target user_id transport) db.sessions ≡ rows
    → let r = revoked_rows user_id reason transport now rows db in
      view r.1 id ≡ entered (on_revoke_all user_id reason transport now r.0) id (view db id)
all_revoked-enters user_id reason transport now [] db id e =
    unchanged (is_target user_id transport) (revoked now reason) (view db id) (λ s found.
      select-nil (is_target user_id transport) db.sessions e
        (scalar-some (λ r. r.id == id) db.sessions found).1)
    ∙ open_entry user_id transport reason now (view db id)
all_revoked-enters user_id reason transport now (r ∷ rows) db id e =
    elim (Bool-cases (leb (length reason) 40)) [
      | inl short ↦ rw short (
          scalar-update-changed (λ r. r.id == id) (is_target user_id transport) (revoked now reason)
            (λ r. refl) db.sessions
          ∙ open_entry user_id transport reason now (view db id))
      | inr long ↦ rw long refl
    ]

module _ (platform : Platform) where
  -- One request: the entries of the tables that it leaves are those that its reply says.
  handle-enters :
      (q : SessionRequest) (db : Db) (id : Uuid)
      → IsDistinct db.sessions
      → view (handle platform q db).1 id ≡ entered (handle platform q db).0 id (view db id)
  handle-enters (issue user_id transport user_agent ip_address draw) db id distinct =
      rw issued_lem (issued-enters draw.drawn _ db id)
  handle-enters (look_up raw now) db id distinct = rw lookup_session_lem (
      looked_up-enters now (presented platform raw now db) db id
        (λ s e. view-row db s distinct (presented-row platform raw now db s e).1))
  handle-enters (revoke at_id reason now) db id distinct = rw revoke_session_lem (
      revoked-enters reason now at_id (view db at_id) db id
        (λ s e. (==_iff s.id at_id).0 (scalar-some (λ r. r.id == at_id) db.sessions e).0))
  handle-enters (revoke_all user_id reason transport now) db id distinct =
      rw revoke_all_lem (all_revoked-enters user_id reason transport now _ db id refl)

  handle-Step : (q : SessionRequest) (db : Db) → Step platform db (handle platform q db).1
  handle-Step (issue user_id transport user_agent ip_address draw) db =
      Step.issue user_id transport user_agent ip_address draw
  handle-Step (look_up raw now) db = Step.look_up raw now
  handle-Step (revoke id reason now) db = Step.revoke id reason now
  handle-Step (revoke_all user_id reason transport now) db =
      Step.revoke_all user_id reason transport now

  pub run-IsDistinct :
      (requests : List SessionRequest) (db : Db)
      → IsDistinct db.sessions
      → IsDistinct (run platform requests db).1.sessions
  run-IsDistinct [] db distinct = distinct
  run-IsDistinct (q ∷ requests) db distinct =
      run-IsDistinct requests (handle platform q db).1
        (Reach-IsDistinct (next start (handle-Step q db)) distinct)

  pub run-replay :
      (requests : List SessionRequest) (db : Db)
      → IsDistinct db.sessions
      → view (run platform requests db).1 ≡ replay (run platform requests db).0 (view db)
  run-replay [] db distinct = refl
  run-replay (q ∷ requests) db distinct =
      run-replay requests (handle platform q db).1
        (Reach-IsDistinct (next start (handle-Step q db)) distinct)
      ∙ ap (replay (run platform requests (handle platform q db).1).0)
          (fun_ext (λ id. handle-enters q db id distinct))
