-- ===== src/Sessions/Ledger/Entries.antt =====
-- What an update and an insertion do to the entries that the tables stand for.
use specter_cloud.Prelude.{
  ◌≢◌, All-map_fun, scalar-append_none, ==_refl, All-at, arith, ◌≡◌, ◌∙◌, refl, ap, inl, inr, Bool,
  true, false, Option, none, some, List, [], ◌∷◌, ◌++◌, scalar, update, Any, scalar-some,
  scalar-none, Bool-cases, Option-cases, ==_iff, ◌==◌, if◌then◌else◌,
}
use specter_cloud.Models.{Uuid, Session}
use specter_cloud.Store.{Db}
use specter_cloud.Sessions.{append_session, session_refers, update_sessions}
use specter_cloud.Sessions.Keys.{session_refers-IsApart}
use specter_cloud.Sessions.Unique.{IsDistinct, IsDistinct-same}
use specter_cloud.Sessions.Ledger.{changed, view}

-- the row that is found after an update that keeps the test
pub scalar-update-changed :
    {A : Type 0} (p q : A → Bool) (f : A → A)
    → ((x : A) → p (f x) ≡ p x)
    → (xs : List A) → scalar p (update q f xs) ≡ changed (λ x. if q x then f x else x) (scalar p xs)
unfolding scalar update
scalar-update-changed p q f kept [] = refl
scalar-update-changed p q f kept (x ∷ xs) =
    let rest = scalar-update-changed p q f kept xs in
    elim (Bool-cases (q x)) [
      | inl pass ↦ elim (Bool-cases (p x)) [
        | inl found ↦ rw (pass, kept x, found, pass) refl
        | inr other ↦ rw (pass, kept x, other) rest
      ]
      | inr fail ↦ elim (Bool-cases (p x)) [
        | inl found ↦ rw (fail, found, fail) refl
        | inr other ↦ rw (fail, other) rest
      ]
    ]

changed-at :
    (id at_id : Uuid) (f : Session → Session) (o : Option Session)
    → ((r : Session) → o ≡ some r → (r.id == id) ≡ true)
    → changed (λ r. if r.id == at_id then f r else r) o ≡ (if at_id == id then changed f o else o)
changed-at id at_id f none found = elim (Bool-cases (at_id == id)) [
  | inl same_id ↦ rw same_id refl
  | inr other ↦ rw other refl
]
changed-at id at_id f (some r) found =
    let same_test : (r.id == at_id) ≡ (at_id == id) = ground (arith, found r refl) in
    ap (λ (b : Bool). some (if b then f r else r)) same_test ∙ some_if (at_id == id) (f r) r
  where
    some_if :
        {A : Type 0} (b : Bool) (x y : A)
        → some (if b then x else y) ≡ (if b then some x else some y)
    some_if true x y = refl
    some_if false x y = refl

-- the entries after an update of the rows with one id
pub view-update :
    (id at_id : Uuid) (f : Session → Session)
    → ((r : Session) → (f r).id ≡ r.id)
    → (db : Db)
    → view (update_sessions (λ r. r.id == at_id) f db) id
      ≡ (if at_id == id then changed f (view db id) else view db id)
view-update id at_id f kept db =
    scalar-update-changed (λ r. r.id == id) (λ r. r.id == at_id) f (λ r. ap (λ i. i == id) (kept r))
      db.sessions
    ∙ changed-at id at_id f (view db id) (λ r e. (scalar-some (λ r. r.id == id) db.sessions e).0)

-- A row is the entry of its id.
pub view-row :
    (db : Db) (s : Session)
    → IsDistinct db.sessions
    → Any (λ r. r ≡ s) db.sessions
    → view db s.id ≡ some s
view-row db s distinct m = elim (Option-cases (view db s.id)) [
  | inl missing ↦
      absurd (cc (All-at (scalar-none (λ r. r.id == s.id) db.sessions missing) m, ==_refl s.id))
  | inr (r, found) ↦
      let (same_id, in_rows) = scalar-some (λ r. r.id == s.id) db.sessions found in
      found ∙ ap some (IsDistinct-same distinct in_rows m (inl ((==_iff r.id s.id).0 same_id)))
]

scalar-append_miss :
    {A : Type 0} (p : A → Bool) (xs : List A) (y : A)
    → p y ≡ false
    → scalar p (xs ++ y ∷ []) ≡ scalar p xs
unfolding scalar
scalar-append_miss p [] y e = rw e refl
scalar-append_miss p (x ∷ xs) y e =
    ap (λ o. if p x then some x else o) (scalar-append_miss p xs y e)

other_id : (a b c : Uuid) → a ≢ b → (b == c) ≡ true → (a == c) ≡ false
other_id a b c apart same_id = ground (arith, apart)

-- the entries after an insertion
pub view-append :
    (id : Uuid) (s : Session) (db : Db)
    → session_refers db s ≡ true
    → view (append_session s db) id ≡ (if s.id == id then some s else view db id)
unfolding scalar
view-append id s db accepted = elim (Bool-cases (s.id == id)) [
  | inl same_id ↦ rw same_id (
      scalar-append_none (λ r. r.id == id) db.sessions (s ∷ [])
        (All-map_fun (λ r apart. other_id r.id s.id id apart.0 same_id)
          (session_refers-IsApart db s accepted))
      ∙ ap (λ b. if b then some s else none) same_id)
  | inr other ↦ rw other (scalar-append_miss (λ r. r.id == id) db.sessions s other)
]
