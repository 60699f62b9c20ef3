-- ===== src/Prelude/Rows.antt =====
-- What search, update and insertion do to the rows of a table.
use mathlib.Core.Path.{◌≡◌, refl, ap}
use mathlib.Core.Logic.{inl, inr}
use mathlib.Core.Bool.{Bool, true, false, ◌||◌}
use mathlib.Core.Option.{none, some}
use mathlib.Core.List.{List, [], ◌∷◌, ◌++◌}
use native.Mathlib.Omega.{arith}
use specter_cloud.Prelude.Tests.{Bool-cases}
use Prim.Native.Nat.{◌≤◌}
use specter_cloud.Prelude.Lists.{
  length, All-select, select, scalar, update, any, All, nil, cons, Any, here, there,
}

module _ {ℓ κ} {A : Type ℓ} {P : A → Type κ} where
  -- An update keeps what it keeps of each row that it changes.
  pub All-update :
      (p : A → Bool) (f : A → A) {xs : List A}
      → ((x : A) → p x ≡ true → P x → P (f x))
      → All P xs
      → All P (update p f xs)
  unfolding update
  All-update p f keep nil = nil
  All-update p f keep (cons {x} q h) = elim (Bool-cases (p x)) [
    | inl pass ↦ rw pass (cons (keep x pass q) (All-update p f keep h))
    | inr fail ↦ rw fail (cons q (All-update p f keep h))
  ]

  -- What holds of a row that is changed, and of one that is left.
  pub All-update_cases :
      (p : A → Bool) (f : A → A) (xs : List A)
      → ((x : A) → Any (λ y. y ≡ x) xs → p x ≡ true → P (f x))
      → ((x : A) → Any (λ y. y ≡ x) xs → p x ≡ false → P x)
      → All P (update p f xs)
  unfolding update
  All-update_cases p f [] changed left = nil
  All-update_cases p f (x ∷ xs) changed left =
      let rest = All-update_cases p f xs (λ y a. changed y (there a)) (λ y a. left y (there a)) in
      elim (Bool-cases (p x)) [
        | inl pass ↦ rw pass (cons (changed x (here refl) pass) rest)
        | inr fail ↦ rw fail (cons (left x (here refl) fail) rest)
      ]

  -- A row that is there before the update is there after it, changed or not.
  pub Any-update {μ} :
      {Q : A → Type μ} (p : A → Bool) (f : A → A)
      → ((x : A) → p x ≡ true → P x → Q (f x))
      → ((x : A) → p x ≡ false → P x → Q x)
      → {xs : List A} → Any P xs
      → Any Q (update p f xs)
  unfolding update
  Any-update p f changed same (here {x} q) = elim (Bool-cases (p x)) [
    | inl pass ↦ rw pass (here (changed x pass q))
    | inr fail ↦ rw fail (here (same x fail q))
  ]
  Any-update p f changed same (there a) = there (Any-update p f changed same a)

||-true : (b : Bool) → (b || true) ≡ true
||-true true = refl
||-true false = refl

module _ {ℓ} {A : Type ℓ} (p : A → Bool) where
  -- The row that is found passes the test and is in the table.
  pub scalar-some :
      (xs : List A) {x : A} → scalar p xs ≡ some x → (p x ≡ true) × Any (λ y. y ≡ x) xs
  unfolding scalar
  scalar-some [] e = cc
  scalar-some (y ∷ xs) {x} e = elim (Bool-cases (p y)) [
    | inl pass ↦ let same : y ≡ x = ground arith in (rw same at pass, here same)
    | inr fail ↦ let (t, a) = scalar-some xs (rw (fail) at e) in (t, there a)
  ]

  pub scalar-none : (xs : List A) → scalar p xs ≡ none → All (λ x. p x ≡ false) xs
  unfolding scalar
  scalar-none [] e = nil
  scalar-none (y ∷ xs) e = elim (Bool-cases (p y)) [
    | inl pass ↦ ground arith
    | inr fail ↦ cons fail (scalar-none xs (ground arith))
  ]

  pub scalar-append_none :
      (xs ys : List A) → All (λ x. p x ≡ false) xs → scalar p (xs ++ ys) ≡ scalar p ys
  unfolding scalar
  scalar-append_none [] ys h = refl
  scalar-append_none (x ∷ xs) ys (cons e h) = rw e (scalar-append_none xs ys h)

  pub any-false : (xs : List A) → any p xs ≡ false → All (λ x. p x ≡ false) xs
  unfolding any
  any-false [] e = nil
  any-false (x ∷ xs) e = cons (ground arith) (any-false xs (ground arith))

  pub any-true : {x : A} {xs : List A} → Any (λ y. y ≡ x) xs → p x ≡ true → any p xs ≡ true
  unfolding any
  any-true (here e) t = rw (e, t) refl
  any-true (there {x = y} a) t = rw (any-true a t) (||-true (p y))

  pub select-none : (xs : List A) → All (λ x. p x ≡ false) xs → select p xs ≡ []
  unfolding select
  select-none [] h = refl
  select-none (x ∷ xs) (cons e h) = rw e (select-none xs h)

module _ {ℓ} {A : Type ℓ} (p q : A → Bool) (f : A → A) where
  -- An update that does not change the test finds the same row, changed.
  pub scalar-update :
      ((x : A) → p (f x) ≡ p x)
      → (xs : List A) {x : A} → scalar p xs ≡ some x
      → q x ≡ true
      → scalar p (update q f xs) ≡ some (f x)
  unfolding scalar update
  scalar-update kept [] e t = cc
  scalar-update kept (y ∷ xs) {x} e t = elim (Bool-cases (p y)) [
    | inl pass ↦
        let same : y ≡ x = ground arith in
        rw (ap q same, t, kept y, pass) (ap (λ z. some (f z)) same)
    | inr fail ↦
        let rest = scalar-update kept xs (rw fail at e) t in
        elim (Bool-cases (q y)) [
          | inl changed ↦ rw (changed, kept y, fail) rest
          | inr left ↦ rw (left, fail) rest
        ]
  ]

module _ {ℓ} {A : Type ℓ} where
  -- What is selected is there and passes the test.
  pub select-All :
      (p : A → Bool) (xs : List A) → All (λ x. Any (λ y. y ≡ x) xs × (p x ≡ true)) (select p xs)
  select-All p xs = All-select _ p xs (λ x m t. (m, t))

  pub select-append :
      (p : A → Bool) (xs ys : List A) → select p (xs ++ ys) ≡ select p xs ++ select p ys
  unfolding select
  select-append p [] ys = refl
  select-append p (x ∷ xs) ys = elim (Bool-cases (p x)) [
    | inl pass ↦ rw pass (ap (λ zs. x ∷ zs) (select-append p xs ys))
    | inr fail ↦ rw fail (select-append p xs ys)
  ]

  -- An update after which no more rows pass a test leaves no longer selection.
  pub length-select-update :
      (p q : A → Bool) (f : A → A)
      → ((x : A) → q (f x) ≡ true → q x ≡ true)
      → (xs : List A) → length (select q (update p f xs)) ≤ length (select q xs)
  unfolding select update
  length-select-update p q f fewer [] = omega arith
  length-select-update p q f fewer (x ∷ xs) =
      let rest = length-select-update p q f fewer xs in
      elim (Bool-cases (p x)) [
        | inl changed ↦ elim (Bool-cases (q (f x))) [
          | inl pass ↦ rw (changed, pass, fewer x pass) (omega (arith, rest))
          | inr fail ↦ elim (Bool-cases (q x)) [
            | inl before ↦ rw (changed, fail, before) (omega (arith, rest))
            | inr never ↦ rw (changed, fail, never) rest
          ]
        ]
        | inr left ↦ elim (Bool-cases (q x)) [
          | inl pass ↦ rw (left, pass) (omega (arith, rest))
          | inr fail ↦ rw (left, fail) rest
        ]
      ]
