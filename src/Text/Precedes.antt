-- ===== src/Text/Precedes.antt =====
-- The order of strings, said without a comparison.
use mochi_beam.Base.{
  ℕ, ◌<◌, ◌≡◌, ◌⊎◌, ◌↔◌, ◌∙◌, refl, sym, ap, subst, inl, inr, true, false, [], ◌∷◌, ◌++◌, ltb,
  arith, Bool-cases,
}
use mochi_beam.Text.Chars.{Text}
use mochi_beam.Text.Order.{text_lt, compare_text}

-- One text is a proper prefix of the other, or the two differ first in a smaller character.
abbrev pub Precedes : Text → Text → Type 0
Precedes s t =
    ((c : ℕ) × (u : Text) × (t ≡ s ++ (c ∷ u)))
    ⊎ ((p : Text) × (a b : ℕ) × (u v : Text) × (a < b) × (s ≡ p ++ (a ∷ u)) × (t ≡ p ++ (b ∷ v)))

Precedes-cons : (a : ℕ) (s t : Text) → Precedes s t → Precedes (a ∷ s) (a ∷ t)
Precedes-cons a s t (inl (c, u, e)) = inl (c, u, ap (λ z. a ∷ z) e)
Precedes-cons a s t (inr (p, x, y, u, v, l, e, f)) =
    inr (a ∷ p, x, y, u, v, l, ap (λ z. a ∷ z) e, ap (λ z. a ∷ z) f)

text_lt→Precedes : (s t : Text) → text_lt s t ≡ true → Precedes s t
unfolding text_lt compare_text
text_lt→Precedes [] [] h = cc
text_lt→Precedes [] (b ∷ t) h = inl (b, t, refl)
text_lt→Precedes (a ∷ s) [] h = cc
text_lt→Precedes (a ∷ s) (b ∷ t) h = elim (Bool-cases (ltb a b)) [
  | inl l ↦ inr ([], a, b, s, t, ground arith, refl, refl)
  | inr l ↦ elim (Bool-cases (ltb b a)) [
    | inl g ↦ let q : text_lt (a ∷ s) (b ∷ t) ≡ false = rw (text_lt, compare_text, l, g) in cc
    | inr g ↦
        let q : text_lt (a ∷ s) (b ∷ t) ≡ text_lt s t = rw (text_lt, compare_text, l, g) in
        let same_head : a ≡ b = ground arith in
        subst (λ z. Precedes (a ∷ s) (z ∷ t)) same_head
          (Precedes-cons a s t (text_lt→Precedes s t (sym q ∙ h)))
  ]
]

text_lt-cons : (a : ℕ) (s t : Text) → text_lt (a ∷ s) (a ∷ t) ≡ text_lt s t
unfolding text_lt compare_text
text_lt-cons a s t = ground arith

text_lt-prefix : (s u : Text) (c : ℕ) → text_lt s (s ++ (c ∷ u)) ≡ true
text_lt-prefix [] u c = unfold text_lt compare_text in refl
text_lt-prefix (a ∷ s) u c = text_lt-cons a s (s ++ (c ∷ u)) ∙ text_lt-prefix s u c

text_lt-differ : (p u v : Text) (a b : ℕ) → a < b → text_lt (p ++ (a ∷ u)) (p ++ (b ∷ v)) ≡ true
text_lt-differ [] u v a b l = unfold text_lt compare_text in ground arith
text_lt-differ (c ∷ p) u v a b l =
    text_lt-cons c (p ++ (a ∷ u)) (p ++ (b ∷ v)) ∙ text_lt-differ p u v a b l

Precedes→text_lt : (s t : Text) → Precedes s t → text_lt s t ≡ true
Precedes→text_lt s t (inl (c, u, e)) =
    subst (λ z. text_lt s z ≡ true) (sym e) (text_lt-prefix s u c)
Precedes→text_lt s t (inr (p, a, b, u, v, l, e, f)) =
    ap (λ z. text_lt z t) e ∙ (ap (text_lt (p ++ (a ∷ u))) f ∙ text_lt-differ p u v a b l)

-- `<` on strings does not hold exactly if the first does not precede the second.
pub not_text_lt-Precedes : (s t : Text) → (text_lt s t ≡ false) ↔ (¬ Precedes s t)
not_text_lt-Precedes s t = (
  λ h q. let z = Precedes→text_lt s t q in cc,
  λ h. elim (Bool-cases (text_lt s t)) [ inl e ↦ absurd (h (text_lt→Precedes s t e)) | inr e ↦ e ],
)
