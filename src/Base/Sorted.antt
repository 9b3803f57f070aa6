-- ===== src/Base/Sorted.antt =====
-- What stable sorting keeps: the members, the order of equal ones, and nothing of the order before.
use mathlib.Core.Path.{◌≡◌, refl, ap, sym, ◌∙◌, subst}
use mathlib.Core.Logic.{inl, inr, ◌⊎◌}
use mathlib.Core.Bool.{Bool, true, false}
use mathlib.Core.List.{List, [], ◌∷◌, Permᴰ}
use mathlib.Core.List.Permᴰ
use mochi_beam.Base.Tests.{if◌then◌else◌, Bool-cases}
use mochi_beam.Base.Sort.{insert, sort}

-- The members that pass a test, in their order.
abbrev pub keep {ℓ} : {A : Type ℓ} → (A → Bool) → List A → List A
keep p [] = []
keep p (x ∷ xs) = let rest = keep p xs in if p x then x ∷ rest else rest

module _ {ℓ} {A : Type ℓ} (less : A → A → Bool) where
  insert-past :
      (x y : A) (ys : List A) → less y x ≡ true → insert less x (y ∷ ys) ≡ y ∷ insert less x ys
  unfolding insert
  insert-past x y ys h = rw (h)

  insert-before : (x y : A) (ys : List A) → less y x ≡ false → insert less x (y ∷ ys) ≡ x ∷ y ∷ ys
  unfolding insert
  insert-before x y ys h = rw (h)

  insert-Perm : (x : A) (ys : List A) → Permᴰ (insert less x ys) (x ∷ ys)
  insert-Perm x [] = unfold insert in (Permᴰ.refl (x ∷ []))
  insert-Perm x (y ∷ ys) = elim (Bool-cases (less y x)) [
    | inl e ↦
        subst (λ l. Permᴰ l (x ∷ y ∷ ys)) (sym (insert-past x y ys e))
          (Permᴰ.trans (Permᴰ.cons refl (insert-Perm x ys)) (Permᴰ.swap refl refl))
    | inr e ↦
        subst (λ l. Permᴰ l (x ∷ y ∷ ys)) (sym (insert-before x y ys e)) (Permᴰ.refl (x ∷ y ∷ ys))
  ]

  -- Sorting only moves members.
  pub sort-Perm : (xs : List A) → Permᴰ (sort less xs) xs
  unfolding sort
  sort-Perm [] = Permᴰ.nil
  sort-Perm (x ∷ xs) = Permᴰ.trans (insert-Perm x (sort less xs)) (Permᴰ.cons refl (sort-Perm xs))

  module _ (p : A → Bool) (level : (x y : A) → p x ≡ true → p y ≡ true → less y x ≡ false) where
    past :
        (x y : A) (ys : List A)
        → less y x ≡ true
        → keep p (insert less x ys) ≡ keep p (x ∷ ys)
        → (p x ≡ true) ⊎ (p x ≡ false)
        → (p y ≡ true) ⊎ (p y ≡ false)
        → keep p (y ∷ insert less x ys) ≡ keep p (x ∷ y ∷ ys)
    past x y ys e q (inl a) (inl b) = let c = level x y a b in cc
    past x y ys e q (inl a) (inr b) =
        let r : keep p (x ∷ ys) ≡ x ∷ keep p ys = rw (a) in rw (a, b) (q ∙ r)
    past x y ys e q (inr a) b =
        let r : keep p (x ∷ ys) ≡ keep p ys = rw (a) in
        rw (a) (ap (λ l. if p y then y ∷ l else l) (q ∙ r))

    keep-insert : (x : A) (ys : List A) → keep p (insert less x ys) ≡ keep p (x ∷ ys)
    keep-insert x [] = unfold insert in refl
    keep-insert x (y ∷ ys) = elim (Bool-cases (less y x)) [
      | inl e ↦
          ap (keep p) (insert-past x y ys e)
          ∙ past x y ys e (keep-insert x ys) (Bool-cases (p x)) (Bool-cases (p y))
      | inr e ↦ ap (keep p) (insert-before x y ys e)
    ]

    -- Members among which the order says nothing stay in their order.
    pub keep-sort : (xs : List A) → keep p (sort less xs) ≡ keep p xs
    unfolding sort
    keep-sort [] = refl
    keep-sort (x ∷ xs) =
        keep-insert x (sort less xs) ∙ ap (λ l. if p x then x ∷ l else l) (keep-sort xs)

  -- The laws of a strict order whose unrelated members are equal.
  module _ (asym : (x y : A) → less x y ≡ true → less y x ≡ false)
      (total : (x y : A) → less x y ≡ false → less y x ≡ false → x ≡ y)
      (between : (x y z : A) → less z y ≡ false → less z x ≡ true → less y x ≡ true) where
    in_order :
        (x y : A) (zs : List A)
        → insert less x zs ≡ x ∷ zs
        → insert less y zs ≡ y ∷ zs
        → insert less x (y ∷ zs) ≡ insert less y (x ∷ zs)
    in_order x y zs hx hy = elim (Bool-cases (less y x)) [
      | inl e ↦
          insert-past x y zs e ∙ (ap (λ l. y ∷ l) hx ∙ sym (insert-before y x zs (asym y x e)))
      | inr e ↦ elim (Bool-cases (less x y)) [
        | inl d ↦ insert-before x y zs e ∙ (ap (λ l. x ∷ l) (sym hy) ∙ sym (insert-past y x zs d))
        | inr d ↦
            let q = total x y d e in
            subst (λ v. insert less x (v ∷ zs) ≡ insert less v (x ∷ zs)) q refl
      ]
    ]

    -- `z` stays before both, and `y` before `z`.
    passes :
        (x y z : A) (zs : List A)
        → less z x ≡ true
        → less z y ≡ false
        → insert less x (insert less y (z ∷ zs)) ≡ insert less y (insert less x (z ∷ zs))
    passes x y z zs a b =
        ap (insert less x) (insert-before y z zs b)
        ∙ (insert-past x y (z ∷ zs) (between x y z b a)
            ∙ (ap (λ l. y ∷ l) (insert-past x z zs a)
                ∙ (sym (insert-before y z (insert less x zs) b)
                    ∙ ap (insert less y) (sym (insert-past x z zs a)))))

    insert-insert :
        (x y : A) (zs : List A)
        → insert less x (insert less y zs) ≡ insert less y (insert less x zs)
    insert-insert x y [] = unfold insert in (in_order x y [] refl refl)
    insert-insert x y (z ∷ zs) = elim (Bool-cases (less z x)) [
      | inl a ↦ elim (Bool-cases (less z y)) [
        | inl b ↦
            ap (insert less x) (insert-past y z zs b)
            ∙ (insert-past x z (insert less y zs) a
                ∙ (ap (λ l. z ∷ l) (insert-insert x y zs)
                    ∙ (sym (insert-past y z (insert less x zs) b)
                        ∙ ap (insert less y) (sym (insert-past x z zs a)))))
        | inr b ↦ passes x y z zs a b
      ]
      | inr a ↦ elim (Bool-cases (less z y)) [
        | inl b ↦ sym (passes y x z zs b a)
        | inr b ↦
            ap (insert less x) (insert-before y z zs b)
            ∙ (in_order x y (z ∷ zs) (insert-before x z zs a) (insert-before y z zs b)
                ∙ ap (insert less y) (sym (insert-before x z zs a)))
      ]
    ]

    -- Sorting leaves nothing of the order before.
    pub sort-unordered : {xs ys : List A} → Permᴰ xs ys → sort less xs ≡ sort less ys
    unfolding sort
    sort-unordered Permᴰ.nil = refl
    sort-unordered (Permᴰ.cons {a = a} {l₂ = l} e d) =
        ap (insert less a) (sort-unordered d) ∙ ap (λ v. insert less v (sort less l)) e
    sort-unordered (Permᴰ.swap {a = a} {b = b} {a' = c} {l = l} e d) =
        insert-insert a b (sort less l)
        ∙ (ap (λ v. insert less v (insert less a (sort less l))) d
            ∙ ap (λ v. insert less c (insert less v (sort less l))) e)
    sort-unordered (Permᴰ.trans d e) = sort-unordered d ∙ sort-unordered e
