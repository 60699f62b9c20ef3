-- ===== src/Sessions/Unique.antt =====
-- No two sessions ever share an id or a token hash.
use specter_cloud.Prelude.{
  Any, here, there, All-at, ◌⊎◌, ◌≡◌, ◌∙◌, refl, sym, inl, inr, Bool, List, [], ◌∷◌, ◌++◌, All, nil,
  cons, All-update, All-append, All-map_fun, update, Bool-cases,
}
use specter_cloud.Platform.{Platform}
use specter_cloud.Models.{Session}
use specter_cloud.Store.{Db}
use specter_cloud.Sessions.{seen, revoked}
use specter_cloud.Sessions.Keys.{IsApart, session_refers-IsApart}
use specter_cloud.Sessions.Steps.{
  Change, same, added, touched, revoked_one, revoked_many, Reach, start, next, Step-Change,
}

pub data IsDistinct : List Session → Type 0 where
  no_rows : IsDistinct []
  one_more :
      {s : Session} {rows : List Session}
      → All (IsApart s) rows
      → IsDistinct rows
      → IsDistinct (s ∷ rows)

-- an update of neither key
module _ (p : Session → Bool) (f : Session → Session) (id_kept : (r : Session) → (f r).id ≡ r.id)
    (hash_kept : (r : Session) → (f r).token_hash ≡ r.token_hash) where
  update-IsDistinct : {rows : List Session} → IsDistinct rows → IsDistinct (update p f rows)
  unfolding update
  update-IsDistinct no_rows = no_rows
  update-IsDistinct (one_more {s} apart rest) = elim (Bool-cases (p s)) [
    | inl pass ↦ rw pass (
        one_more
          (All-map_fun (λ r a. (λ e. a.0 (e ∙ id_kept s), λ e. a.1 (e ∙ hash_kept s)))
            (still s apart))
          (update-IsDistinct rest))
    | inr fail ↦ rw fail (one_more (still s apart) (update-IsDistinct rest))
  ]
    where
      still :
          (s : Session) {rows : List Session}
          → All (IsApart s) rows
          → All (IsApart s) (update p f rows)
      still s a =
          All-update p f
            (λ r t b. (λ e. b.0 (sym (id_kept r) ∙ e), λ e. b.1 (sym (hash_kept r) ∙ e))) a

append-IsDistinct :
    (s : Session) {rows : List Session}
    → All (IsApart s) rows
    → IsDistinct rows
    → IsDistinct (rows ++ s ∷ [])
append-IsDistinct s nil no_rows = one_more nil no_rows
append-IsDistinct s (cons a apart) (one_more h rest) =
    one_more (All-append h (cons (λ e. a.0 (sym e), λ e. a.1 (sym e)) nil))
      (append-IsDistinct s apart rest)

Change-IsDistinct : {db db' : Db} → Change db db' → IsDistinct db.sessions → IsDistinct db'.sessions
Change-IsDistinct (same e) d = rw e d
Change-IsDistinct {db} (added s short accepted e) d =
    rw e (append-IsDistinct s (session_refers-IsApart db s accepted) d)
Change-IsDistinct (touched now s e) d =
    rw e (update-IsDistinct _ (seen now) (λ r. refl) (λ r. refl) d)
Change-IsDistinct (revoked_one now reason s m active e) d =
    rw e (update-IsDistinct _ (revoked now reason) (λ r. refl) (λ r. refl) d)
Change-IsDistinct (revoked_many now reason user_id t e) d =
    rw e (update-IsDistinct _ (revoked now reason) (λ r. refl) (λ r. refl) d)

-- From tables in which ids and token hashes are unique, every sequence of session requests leads to
-- such tables.
pub Reach-IsDistinct :
    {platform : Platform} {db db' : Db}
    → Reach platform db db'
    → IsDistinct db.sessions
    → IsDistinct db'.sessions
Reach-IsDistinct start d = d
Reach-IsDistinct (next r s) d = Change-IsDistinct (Step-Change s) (Reach-IsDistinct r d)

not_apart : (s r : Session) → IsApart s r → (s.id ≡ r.id) ⊎ (s.token_hash ≡ r.token_hash) → ⊥
not_apart s r apart (inl e) = apart.0 (sym e)
not_apart s r apart (inr e) = apart.1 (sym e)

symmetric :
    (a b : Session)
    → (a.id ≡ b.id) ⊎ (a.token_hash ≡ b.token_hash)
    → (b.id ≡ a.id) ⊎ (b.token_hash ≡ a.token_hash)
symmetric a b (inl e) = inl (sym e)
symmetric a b (inr e) = inr (sym e)

-- Two rows with one id, or with one token hash, are one row.
pub IsDistinct-same :
    {rows : List Session} {a b : Session}
    → IsDistinct rows
    → Any (λ r. r ≡ a) rows
    → Any (λ r. r ≡ b) rows
    → (a.id ≡ b.id) ⊎ (a.token_hash ≡ b.token_hash)
    → a ≡ b
IsDistinct-same no_rows x y keys = elim x [ ]
IsDistinct-same (one_more apart rest) (here e) (here f) keys = sym e ∙ f
IsDistinct-same (one_more apart rest) (there x) (there y) keys = IsDistinct-same rest x y keys
IsDistinct-same {a} {b} (one_more {s} apart rest) (here e) (there y) keys =
    absurd (not_apart s b (All-at apart y) (rw (sym e) at keys))
IsDistinct-same {a} {b} (one_more {s} apart rest) (there x) (here f) keys =
    absurd (not_apart s a (All-at apart x) (symmetric a s (rw (sym f) at keys)))
