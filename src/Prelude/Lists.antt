-- ===== src/Prelude/Lists.antt =====
-- Lists as the rows of a table or the characters of a text: native lengths, predicates on all and
-- on some element, and what Boolean selection, search and update do to them.
use Prim.Native.Nat.{ℕ, zero, suc, ◌+◌}
use mathlib.Core.Path.{◌≡◌, refl, subst}
use mathlib.Core.Logic.{inl, inr}
use mathlib.Core.Bool.{Bool, true, false, ◌||◌}
use mathlib.Core.Option.{Option, none, some}
use mathlib.Core.List.{List, [], ◌∷◌, ◌++◌, map}
use native.Mathlib.Omega.{arith}
use specter_cloud.Prelude.Tests.{if◌then◌else◌, Bool-cases}

module _ {ℓ} {A : Type ℓ} where
  abbrev pub length : List A → ℕ
  length [] = 0
  length (x ∷ xs) = suc (length xs)

  pub length-append : (xs ys : List A) → length (xs ++ ys) ≡ length xs + length ys
  length-append [] ys = omega arith
  length-append (x ∷ xs) ys = omega (arith, length-append xs ys)

  abbrev pub drop : ℕ → List A → List A
  drop zero xs = xs
  drop (suc n) [] = []
  drop (suc n) (x ∷ xs) = drop n xs

  -- `SELECT … WHERE p`, in the order of the table
  unfoldable pub select : (A → Bool) → List A → List A
  select p [] = []
  select p (x ∷ xs) = if p x then x ∷ select p xs else select p xs

  -- the first row of `SELECT … WHERE p`, or None
  unfoldable pub scalar : (A → Bool) → List A → Option A
  scalar p [] = none
  scalar p (x ∷ xs) = if p x then some x else scalar p xs

  -- `UPDATE … SET f WHERE p`
  unfoldable pub update : (A → Bool) → (A → A) → List A → List A
  update p f [] = []
  update p f (x ∷ xs) = (if p x then f x else x) ∷ update p f xs

  unfoldable pub any : (A → Bool) → List A → Bool
  any p [] = false
  any p (x ∷ xs) = p x || any p xs

  -- Every element satisfies `P`.
  pub data All {κ} (P : A → Type κ) : List A → Type (ℓ ⊔ κ) where
    nil : All P []
    cons : {x : A} {xs : List A} → P x → All P xs → All P (x ∷ xs)

  -- Some element satisfies `P`; the derivation says which one.
  pub data Any {κ} (P : A → Type κ) : List A → Type (ℓ ⊔ κ) where
    here : {x : A} {xs : List A} → P x → Any P (x ∷ xs)
    there : {x : A} {xs : List A} → Any P xs → Any P (x ∷ xs)

module _ {ℓ κ} {A : Type ℓ} {P : A → Type κ} where
  pub All-map_fun {μ} :
      {Q : A → Type μ} → ((x : A) → P x → Q x) → {xs : List A} → All P xs → All Q xs
  All-map_fun f nil = nil
  All-map_fun f (cons p h) = cons (f _ p) (All-map_fun f h)

  pub Any-map_fun {μ} :
      {Q : A → Type μ} → ((x : A) → P x → Q x) → {xs : List A} → Any P xs → Any Q xs
  Any-map_fun f (here p) = here (f _ p)
  Any-map_fun f (there a) = there (Any-map_fun f a)

  -- To prove `P` of all elements, prove it of each.
  pub All-each : (xs : List A) → ((x : A) → Any (λ y. y ≡ x) xs → P x) → All P xs
  All-each [] each = nil
  All-each (x ∷ xs) each = cons (each x (here refl)) (All-each xs (λ y a. each y (there a)))

  -- What holds of all elements holds of the one that is found.
  pub All-Any {μ} : {Q : A → Type μ} {xs : List A} → All Q xs → Any P xs → Any (λ x. P x × Q x) xs
  All-Any nil a = elim a [ ]
  All-Any (cons q h) (here p) = here (p, q)
  All-Any (cons q h) (there a) = there (All-Any h a)

  -- What holds of all elements holds of one of them.
  pub All-at : {xs : List A} {x : A} → All P xs → Any (λ y. y ≡ x) xs → P x
  All-at nil a = elim a [ ]
  All-at (cons p h) (here e) = subst P e p
  All-at (cons p h) (there a) = All-at h a

  pub Any-witness : {xs : List A} → Any P xs → (x : A) × Any (λ y. y ≡ x) xs × P x
  Any-witness (here p) = (_, here refl, p)
  Any-witness (there a) = let (x, m, p) = Any-witness a in (x, there m, p)

  pub Any-append_left : {xs : List A} (ys : List A) → Any P xs → Any P (xs ++ ys)
  Any-append_left ys (here p) = here p
  Any-append_left ys (there a) = there (Any-append_left ys a)

  pub Any-append_right : (xs : List A) {ys : List A} → Any P ys → Any P (xs ++ ys)
  Any-append_right [] a = a
  Any-append_right (x ∷ xs) a = there (Any-append_right xs a)

  pub All-append : {xs ys : List A} → All P xs → All P ys → All P (xs ++ ys)
  All-append nil hy = hy
  All-append (cons p hx) hy = cons p (All-append hx hy)

  pub All-if : (b : Bool) {xs : List A} → (b ≡ true → All P xs) → All P (if b then xs else [])
  All-if true h = h refl
  All-if false h = nil

module _ {ℓ κ} {A : Type ℓ} (P : A → Type κ) where
  pub All-map {μ} :
      {B : Type μ} (f : B → A) (xs : List B) → All (λ x. P (f x)) xs → All P (map f xs)
  All-map f [] h = nil
  All-map f (x ∷ xs) (cons p h) = cons p (All-map f xs h)

  pub Any-map {μ} :
      {B : Type μ} (f : B → A) (xs : List B) → Any (λ x. P (f x)) xs → Any P (map f xs)
  Any-map f [] a = elim a [ ]
  Any-map f (x ∷ xs) (here p) = here p
  Any-map f (x ∷ xs) (there a) = there (Any-map f xs a)

  -- To prove `P` of what a test selects, prove it of the elements that pass.
  pub All-select :
      (p : A → Bool) (xs : List A)
      → ((x : A) → Any (λ y. y ≡ x) xs → p x ≡ true → P x)
      → All P (select p xs)
  unfolding select
  All-select p [] keep = nil
  All-select p (x ∷ xs) keep = elim (Bool-cases (p x)) [
    | inl pass ↦
        rw pass (cons (keep x (here refl) pass) (All-select p xs (λ y a e. keep y (there a) e)))
    | inr fail ↦ rw fail (All-select p xs (λ y a e. keep y (there a) e))
  ]

  -- An element that passes the test is selected.
  pub Any-select :
      (p : A → Bool) (xs : List A) → Any (λ x. P x × (p x ≡ true)) xs → Any P (select p xs)
  unfolding select
  Any-select p [] a = elim a [ ]
  Any-select p (x ∷ xs) (here h) = rw h.1 (here h.0)
  Any-select p (x ∷ xs) (there a) = elim (Bool-cases (p x)) [
    | inl pass ↦ rw pass (there (Any-select p xs a))
    | inr fail ↦ rw fail (Any-select p xs a)
  ]
