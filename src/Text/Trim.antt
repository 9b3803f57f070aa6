-- ===== src/Text/Trim.antt =====
-- `strings.TrimSpace`.
use mochi_beam.Base.{
  ℕ, ◌≡◌, refl, ap, ◌∙◌, Bool, true, false, ◌&&◌, [], ◌∷◌, ◌++◌, if◌then◌else◌, Bool-cases, inl,
  inr, All,
}
use mochi_beam.Text.Chars.{Text, is_space}

unfoldable pub trim_left : Text → Text
trim_left [] = []
trim_left (c ∷ s) = let rest = trim_left s in if is_space c then rest else c ∷ s

abbrev is_empty : Text → Bool
is_empty [] = true
is_empty (c ∷ s) = false

unfoldable pub trim_right : Text → Text
trim_right [] = []
trim_right (c ∷ s) = let rest = trim_right s in if is_space c && is_empty rest then [] else c ∷ rest

unfoldable pub trim_space : Text → Text
trim_space s = trim_right (trim_left s)

abbrev pub StartsSolid : Text → Type 0
StartsSolid [] = Unit
StartsSolid (c ∷ s) = is_space c ≡ false

abbrev pub EndsSolid : Text → Type 0
EndsSolid [] = Unit
EndsSolid (c ∷ []) = is_space c ≡ false
EndsSolid (c ∷ d ∷ s) = EndsSolid (d ∷ s)

trim_left_fix : (s : Text) → StartsSolid s → trim_left s ≡ s
unfolding trim_left
trim_left_fix [] h = refl
trim_left_fix (c ∷ s) h = rw h

trim_right_keep : (c d : ℕ) (s t : Text) → trim_right s ≡ d ∷ t → trim_right (c ∷ s) ≡ c ∷ d ∷ t
unfolding trim_right
trim_right_keep c d s t h = elim (Bool-cases (is_space c)) [
  | inl space ↦ rw (h, space)
  | inr solid ↦ rw (h, solid)
]

trim_right_fix : (s : Text) → EndsSolid s → trim_right s ≡ s
trim_right_fix [] h = unfold trim_right in refl
trim_right_fix (c ∷ []) h = unfold trim_right in rw h
trim_right_fix (c ∷ d ∷ s) h = trim_right_keep c d (d ∷ s) s (trim_right_fix (d ∷ s) h)

-- A text with no space at either end is its own trimmed text.
pub trim_space_fix : (s : Text) → StartsSolid s → EndsSolid s → trim_space s ≡ s
unfolding trim_space
trim_space_fix s h k = ap trim_right (trim_left_fix s h) ∙ trim_right_fix s k

-- One space in front is taken off.
pub trim_space-space : (c : ℕ) (s : Text) → is_space c ≡ true → trim_space (c ∷ s) ≡ trim_space s
unfolding trim_space trim_left
trim_space-space c s h = rw h

pub EndsSolid-append :
    (xs : Text) (c : ℕ) (ys : Text) → EndsSolid (c ∷ ys) → EndsSolid (xs ++ c ∷ ys)
EndsSolid-append [] c ys h = h
EndsSolid-append (x ∷ []) c ys h = h
EndsSolid-append (x ∷ y ∷ xs) c ys h = EndsSolid-append (y ∷ xs) c ys h

pub EndsSolid-All : (xs : Text) → All (λ c. is_space c ≡ false) xs → EndsSolid xs
EndsSolid-All [] h = tt
EndsSolid-All (x ∷ []) h = h.0
EndsSolid-All (x ∷ y ∷ xs) h = EndsSolid-All (y ∷ xs) h.1
