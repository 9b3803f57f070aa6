-- ===== src/Text/Cut.antt =====
-- `strings.Split`, `strings.IndexByte` and `strings.Count` at one character.
use mochi_beam.Base.{
  ℕ, suc, ◌+◌, ◌≡◌, ◌≢◌, refl, List, [], ◌∷◌, ◌++◌, Option, none, some, All, ◌==◌, if◌then◌else◌,
  arith, ne→not_==, ==_refl,
}
use mochi_beam.Text.Chars.{Text}

-- The first field gets one more character.
abbrev grow : ℕ → List Text → List Text
grow c [] = (c ∷ []) ∷ []
grow c (w ∷ ws) = (c ∷ w) ∷ ws

unfoldable pub split_on : ℕ → Text → List Text
split_on sep [] = [] ∷ []
split_on sep (c ∷ s) = let rest = split_on sep s in if c == sep then [] ∷ rest else grow c rest

-- `if idx := strings.IndexByte(s, sep); idx >= 0 { s[:idx], s[idx+1:] }`.
unfoldable pub cut_at : ℕ → Text → Text × Option Text
cut_at sep [] = ([], none)
cut_at sep (c ∷ s) =
    let rest = cut_at sep s in if c == sep then ([], some s) else (c ∷ rest.0, rest.1)

unfoldable pub count_of : ℕ → Text → ℕ
count_of sep [] = 0
count_of sep (c ∷ s) = if c == sep then suc (count_of sep s) else count_of sep s

abbrev pub IsFreeOf : ℕ → Text → Type 0
IsFreeOf sep = All (λ c. c ≢ sep)

pub split_on-append :
    (sep : ℕ) (w s : Text) → IsFreeOf sep w → split_on sep (w ++ sep ∷ s) ≡ w ∷ split_on sep s
unfolding split_on
split_on-append sep [] s h = rw (==_refl sep)
split_on-append sep (c ∷ w) s h = rw (ne→not_== c sep h.0, split_on-append sep w s h.1)

pub split_on-free : (sep : ℕ) (w : Text) → IsFreeOf sep w → split_on sep w ≡ w ∷ []
unfolding split_on
split_on-free sep [] h = refl
split_on-free sep (c ∷ w) h = rw (ne→not_== c sep h.0, split_on-free sep w h.1)

pub cut_at-append :
    (sep : ℕ) (w s : Text) → IsFreeOf sep w → cut_at sep (w ++ sep ∷ s) ≡ (w, some s)
unfolding cut_at
cut_at-append sep [] s h = rw (==_refl sep)
cut_at-append sep (c ∷ w) s h = rw (ne→not_== c sep h.0, cut_at-append sep w s h.1)

pub cut_at-free : (sep : ℕ) (w : Text) → IsFreeOf sep w → cut_at sep w ≡ (w, none)
unfolding cut_at
cut_at-free sep [] h = refl
cut_at-free sep (c ∷ w) h = rw (ne→not_== c sep h.0, cut_at-free sep w h.1)

pub count_of-free : (sep : ℕ) (w : Text) → IsFreeOf sep w → count_of sep w ≡ 0
unfolding count_of
count_of-free sep [] h = refl
count_of-free sep (c ∷ w) h = rw (ne→not_== c sep h.0, count_of-free sep w h.1)

pub count_of-append :
    (sep : ℕ) (w s : Text) → count_of sep (w ++ s) ≡ count_of sep w + count_of sep s
unfolding count_of
count_of-append sep [] s = omega arith
count_of-append sep (c ∷ w) s = ground (arith, count_of-append sep w s)

-- One separator more than there are in the rest.
pub count_of-word :
    (sep : ℕ) (w s : Text) → IsFreeOf sep w → count_of sep (w ++ sep ∷ s) ≡ suc (count_of sep s)
unfolding count_of
count_of-word sep [] s h = rw (==_refl sep)
count_of-word sep (c ∷ w) s h = rw (ne→not_== c sep h.0, count_of-word sep w s h.1)
