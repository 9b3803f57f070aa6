-- ===== src/Base/Sort.antt =====
-- Stable sorting by insertion, for a Boolean test of `less`.
use mathlib.Core.Path.{◌≡◌, refl, ap, sym, ◌∙◌, subst}
use mathlib.Core.Logic.{inl, inr}
use mathlib.Core.Bool.{Bool, true, false}
use mathlib.Core.List.{List, [], ◌∷◌}
use mochi_beam.Base.Lists.{All}
use mochi_beam.Base.Tests.{if◌then◌else◌, Bool-cases}

module _ {ℓ} {A : Type ℓ} (less : A → A → Bool) where
  unfoldable pub insert : A → List A → List A
  insert x [] = x ∷ []
  insert x (y ∷ ys) = let rest = insert x ys in if less y x then y ∷ rest else x ∷ y ∷ ys

  unfoldable pub sort : List A → List A
  sort [] = []
  sort (x ∷ xs) = insert x (sort xs)

  -- No member is less than the one before it.
  abbrev pub IsSorted : List A → Type 0
  IsSorted [] = Unit
  IsSorted (x ∷ []) = Unit
  IsSorted (x ∷ y ∷ ys) = (less y x ≡ false) × IsSorted (y ∷ ys)

module _ {ℓ} {A : Type ℓ} (less : A → A → Bool) where
  -- The first member of a sorted list with `x` put in, and the rest, after `y`.
  after :
      (y x : A) (ys : List A)
      → less x y ≡ false
      → IsSorted less (y ∷ ys)
      → IsSorted less (insert less x ys)
      → IsSorted less (y ∷ insert less x ys)
  unfolding insert
  after y x [] h s t = (h, tt)
  after y x (z ∷ zs) h s t = elim (Bool-cases (less z x)) [
    | inl e ↦
        let q : insert less x (z ∷ zs) ≡ z ∷ insert less x zs = rw (e) in
        subst (λ l. IsSorted less (y ∷ l)) (sym q) (s.0, subst (IsSorted less) q t)
    | inr e ↦
        let q : insert less x (z ∷ zs) ≡ x ∷ z ∷ zs = rw (e) in
        subst (λ l. IsSorted less (y ∷ l)) (sym q) (h, subst (IsSorted less) q t)
  ]

  pub tail-IsSorted : (y : A) (ys : List A) → IsSorted less (y ∷ ys) → IsSorted less ys
  tail-IsSorted y [] s = tt
  tail-IsSorted y (z ∷ zs) s = s.1

  insert-IsSorted :
      ((x y : A) → less x y ≡ true → less y x ≡ false)
      → (x : A) (ys : List A) → IsSorted less ys
      → IsSorted less (insert less x ys)
  unfolding insert
  insert-IsSorted asym x [] s = tt
  insert-IsSorted asym x (y ∷ ys) s = elim (Bool-cases (less y x)) [
    | inl e ↦
        let q : insert less x (y ∷ ys) ≡ y ∷ insert less x ys = rw (e) in
        subst (IsSorted less) (sym q)
          (after y x ys (asym y x e) s (insert-IsSorted asym x ys (tail-IsSorted y ys s)))
    | inr e ↦
        let q : insert less x (y ∷ ys) ≡ x ∷ y ∷ ys = rw (e) in subst (IsSorted less) (sym q) (e, s)
  ]

  pub sort-IsSorted :
      ((x y : A) → less x y ≡ true → less y x ≡ false)
      → (xs : List A) → IsSorted less (sort less xs)
  unfolding sort
  sort-IsSorted asym [] = tt
  sort-IsSorted asym (x ∷ xs) = insert-IsSorted asym x (sort less xs) (sort-IsSorted asym xs)

  insert-first : (x : A) (ys : List A) → IsSorted less (x ∷ ys) → insert less x ys ≡ x ∷ ys
  unfolding insert
  insert-first x [] s = refl
  insert-first x (y ∷ ys) s = rw (s.0)

  -- Sorting leaves a sorted list as it is.
  pub sort-fixes : (xs : List A) → IsSorted less xs → sort less xs ≡ xs
  unfolding sort
  sort-fixes [] s = refl
  sort-fixes (x ∷ xs) s =
      ap (insert less x) (sort-fixes xs (tail-IsSorted x xs s)) ∙ insert-first x xs s

module _ {ℓ κ} {A : Type ℓ} (less : A → A → Bool) (P : A → Type κ) where
  insert-All : (x : A) (ys : List A) → P x → All P ys → All P (insert less x ys)
  unfolding insert
  insert-All x [] h hs = (h, tt)
  insert-All x (y ∷ ys) h hs = elim (Bool-cases (less y x)) [
    | inl e ↦
        let q : insert less x (y ∷ ys) ≡ y ∷ insert less x ys = rw (e) in
        subst (All P) (sym q) (hs.0, insert-All x ys h hs.1)
    | inr e ↦ let q : insert less x (y ∷ ys) ≡ x ∷ y ∷ ys = rw (e) in subst (All P) (sym q) (h, hs)
  ]

  pub sort-All : (xs : List A) → All P xs → All P (sort less xs)
  unfolding sort
  sort-All [] hs = tt
  sort-All (x ∷ xs) hs = insert-All x (sort less xs) hs.0 (sort-All xs hs.1)
