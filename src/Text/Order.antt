-- ===== src/Text/Order.antt =====
-- `strings.Compare`, and the comparison of `int`s.
use mochi_beam.Base.{
  ◌≡◌, ◌⊎◌, ◌∙◌, ap, subst, Bool-cases, inl, inr, refl, Bool, true, false, [], ◌∷◌, ltb,
  if◌then◌else◌, arith,
}
use mochi_beam.Base.Int.{ℤ, pos, negsuc}
use mochi_beam.Text.Chars.{Text}

-- The results -1, 0 and +1.
pub data Sign : Type 0 where
  below same above : Sign

abbrev pub flip : Sign → Sign
flip below = above
flip same = same
flip above = below

pub Sign-cases : (x : Sign) → (x ≡ below) ⊎ (x ≡ same) ⊎ (x ≡ above)
Sign-cases below = inl refl
Sign-cases same = inr (inl refl)
Sign-cases above = inr (inr refl)

-- `a < b` on `int`.
abbrev pub lt_ℤ : ℤ → ℤ → Bool
lt_ℤ (pos a) (pos b) = ltb a b
lt_ℤ (pos a) (negsuc b) = false
lt_ℤ (negsuc a) (pos b) = true
lt_ℤ (negsuc a) (negsuc b) = ltb b a

unfoldable pub compare_text : Text → Text → Sign
compare_text [] [] = same
compare_text [] (b ∷ t) = below
compare_text (a ∷ s) [] = above
compare_text (a ∷ s) (b ∷ t) =
    let rest = compare_text s t in if ltb a b then below else if ltb b a then above else rest

abbrev pub is_below : Sign → Bool
is_below below = true
is_below _ = false

-- `<` on strings.
unfoldable pub text_lt : Text → Text → Bool
text_lt s t = is_below (compare_text s t)

pub compare_text-flip : (s t : Text) → compare_text t s ≡ flip (compare_text s t)
unfolding compare_text
compare_text-flip [] [] = refl
compare_text-flip [] (b ∷ t) = refl
compare_text-flip (a ∷ s) [] = refl
compare_text-flip (a ∷ s) (b ∷ t) = ground (arith, compare_text-flip s t)

pub compare_text→eq : (s t : Text) → compare_text s t ≡ same → s ≡ t
unfolding compare_text
compare_text→eq [] [] h = refl
compare_text→eq [] (b ∷ t) h = cc
compare_text→eq (a ∷ s) [] h = cc
compare_text→eq (a ∷ s) (b ∷ t) h = ground (arith, compare_text→eq s t)

pub compare_text_trans :
    (s t u : Text) → compare_text s t ≡ below → compare_text t u ≡ below → compare_text s u ≡ below
unfolding compare_text
compare_text_trans [] [] u h k = cc
compare_text_trans [] (b ∷ t) [] h k = cc
compare_text_trans [] (b ∷ t) (c ∷ u) h k = refl
compare_text_trans (a ∷ s) [] u h k = cc
compare_text_trans (a ∷ s) (b ∷ t) [] h k = cc
compare_text_trans (a ∷ s) (b ∷ t) (c ∷ u) h k = ground (arith, compare_text_trans s t u)

is_below-flip : (x : Sign) → is_below x ≡ true → is_below (flip x) ≡ false
is_below-flip below h = refl
is_below-flip same h = refl
is_below-flip above h = cc

is_below→below : (x : Sign) → is_below x ≡ true → x ≡ below
is_below→below below h = refl
is_below→below same h = cc
is_below→below above h = cc

pub text_lt_asymmetric : (s t : Text) → text_lt s t ≡ true → text_lt t s ≡ false
unfolding text_lt
text_lt_asymmetric s t h = ap is_below (compare_text-flip s t) ∙ is_below-flip (compare_text s t) h

pub text_lt_irreflexive : (s : Text) → text_lt s s ≡ false
text_lt_irreflexive s = elim (Bool-cases (text_lt s s)) [
  | inl e ↦ text_lt_asymmetric s s e
  | inr e ↦ e
]

pub text_lt_total : (s t : Text) → text_lt s t ≡ false → text_lt t s ≡ false → s ≡ t
unfolding text_lt
text_lt_total s t h k = elim (Sign-cases (compare_text s t)) [
  | inl e ↦ let q = ap is_below e in cc
  | inr (inl e) ↦ compare_text→eq s t e
  | inr (inr e) ↦ let q = ap is_below (compare_text-flip s t ∙ ap flip e) in cc
]

pub text_lt_between : (s t u : Text) → text_lt u t ≡ false → text_lt u s ≡ true → text_lt t s ≡ true
unfolding text_lt
text_lt_between s t u h k =
    let us = is_below→below (compare_text u s) k in
    elim (Sign-cases (compare_text u t)) [
      | inl e ↦ let q = ap is_below e in cc
      | inr (inl e) ↦ subst (λ z. is_below (compare_text z s) ≡ true) (compare_text→eq u t e) k
      | inr (inr e) ↦
          let tu : compare_text t u ≡ below = compare_text-flip u t ∙ ap flip e in
          ap is_below (compare_text_trans t u s tu us)
    ]
