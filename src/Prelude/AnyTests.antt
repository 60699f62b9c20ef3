-- ===== src/Prelude/AnyTests.antt =====
-- What appending, updating and removing do to Boolean tests on lists.
use mathlib.Core.Path.{◌≡◌, refl, ap, ◌∙◌}
use mathlib.Core.Logic.{inl, inr}
use mathlib.Core.Bool.{Bool, true, false, not, ◌||◌}
use mathlib.Core.List.{List, [], ◌∷◌, ◌++◌}
use native.Mathlib.Omega.{arith}
use specter_cloud.Prelude.Tests.{Bool-cases}
use specter_cloud.Prelude.Lists.{select, update, any, All, nil, cons}

module _ {ℓ} {A : Type ℓ} where
  pub any-last : (p : A → Bool) (xs : List A) (x : A) → p x ≡ true → any p (xs ++ x ∷ []) ≡ true
  unfolding any
  any-last p [] x e = rw e refl
  any-last p (y ∷ xs) x e = ground (arith, any-last p xs x e)

  pub any-append_left : (p : A → Bool) (xs ys : List A) → any p xs ≡ true → any p (xs ++ ys) ≡ true
  unfolding any
  any-append_left p [] ys e = cc
  any-append_left p (y ∷ xs) ys e = elim (Bool-cases (p y)) [
    | inl pass ↦ rw pass refl
    | inr fail ↦ rw fail (any-append_left p xs ys (rw fail at e))
  ]

  pub any-none : (p : A → Bool) {xs : List A} → All (λ x. p x ≡ false) xs → any p xs ≡ false
  unfolding any
  any-none p nil = refl
  any-none p (cons e h) = rw (e, any-none p h) refl

  -- the removal of the last element, which alone passes
  pub select-last :
      (p : A → Bool) (xs : List A) (x : A)
      → any p xs ≡ false
      → p x ≡ true
      → select (λ y. not (p y)) (xs ++ x ∷ []) ≡ xs
  unfolding any select
  select-last p [] x none e = rw e refl
  select-last p (y ∷ xs) x none e = elim (Bool-cases (p y)) [
    | inl pass ↦ absurd (cc (rw pass at none))
    | inr fail ↦ rw fail (ap (λ zs. y ∷ zs) (select-last p xs x (rw fail at none) e))
  ]

  module _ (p : A → Bool) (f : A → A) where
    pub any-update :
        (q : A → Bool)
        → ((x : A) → p x ≡ true → q (f x) ≡ true)
        → (xs : List A) → any p xs ≡ true
        → any q (update p f xs) ≡ true
    unfolding any update
    any-update q made [] e = cc
    any-update q made (x ∷ xs) e = elim (Bool-cases (p x)) [
      | inl pass ↦ rw (pass, made x pass) refl
      | inr fail ↦ let rest = any-update q made xs (rw fail at e) in rw (fail, rest) (or_true (q x))
    ]
      where
        or_true : (b : Bool) → (b || true) ≡ true
        or_true true = refl
        or_true false = refl

    pub any-update_same :
        (q : A → Bool)
        → ((x : A) → q (f x) ≡ q x)
        → (xs : List A) → any q (update p f xs) ≡ any q xs
    unfolding any update
    any-update_same q same [] = refl
    any-update_same q same (x ∷ xs) = elim (Bool-cases (p x)) [
      | inl pass ↦ rw (pass, same x, any-update_same q same xs) refl
      | inr fail ↦ rw (fail, any-update_same q same xs) refl
    ]

    -- an update that takes the first one back
    pub update-update :
        (g : A → A)
        → ((x : A) → p (f x) ≡ p x)
        → {xs : List A} → All (λ x. p x ≡ true → g (f x) ≡ x) xs
        → update p g (update p f xs) ≡ xs
    unfolding update
    update-update g same nil = refl
    update-update g same (cons {x} {xs} back h) = elim (Bool-cases (p x)) [
      | inl pass ↦
          rw (pass, same x, pass)
            (ap (λ y. y ∷ update p g (update p f xs)) (back pass)
              ∙ ap (λ ys. x ∷ ys) (update-update g same h))
      | inr fail ↦ rw (fail, fail) (ap (λ ys. x ∷ ys) (update-update g same h))
    ]
