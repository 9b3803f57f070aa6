-- ===== src/Types/EffectNames.antt =====
-- internal/types/effects.go: the names of labels and sets, and the labels of a set.
use mochi_beam.Base.{
  ℕ, zero, suc, ◌+◌, ◌<◌, ◌≡◌, ◌↔◌, refl, sym, ap, ◌∙◌, subst, Bool, true, false, not, ◌&&◌, ◌||◌,
  ◌==◌, [], ◌∷◌, length, List, some, arith, Bool-cases, inl, inr,
}
use mochi_beam.Text.Chars.{Text, text_eq, text_eq→eq, text_eq_refl}
use mochi_beam.Types.Effects.{
  EffectLabel, EffectSet, effect_names, label_text, name_at, parse_effect_label, find_name,
  new_effect_set, add_labels, add_label, bitwise, one_bit, has, is_empty, labels, labels_from,
  effects_text, join_names,
}

-- `n` numbers pass the test, from 0.
unfoldable all_under : ℕ → (ℕ → Bool) → Bool
all_under zero f = true
all_under (suc n) f = f n && all_under n f

and_left : (a b : Bool) → (a && b) ≡ true → a ≡ true
and_left true b h = refl
and_left false b h = cc

and_right : (a b : Bool) → (a && b) ≡ true → b ≡ true
and_right true b h = h
and_right false b h = cc

all_under-lt : (n : ℕ) (f : ℕ → Bool) → all_under n f ≡ true → (k : ℕ) → k < n → f k ≡ true
unfolding all_under
all_under-lt zero f h k l = absurd (omega arith)
all_under-lt (suc n) f h k l = elim (Bool-cases (k == n)) [
  | inl e ↦
      let q : k ≡ n = ground arith in
      subst (λ z. f z ≡ true) (sym q) (and_left (f n) (all_under n f) h)
  | inr e ↦ all_under-lt n f (and_right (f n) (all_under n f) h) k (ground arith)
]

-- The sets of the five labels are those below 32.
abbrev is_kept : EffectSet → Bool
is_kept s = new_effect_set (labels s) == s

all_kept : all_under 32 is_kept ≡ true
unfolding all_under new_effect_set labels labels_from has add_labels add_label bitwise one_bit
all_kept = refl

abbrev are_told_apart : EffectSet → EffectSet → Bool
are_told_apart s t = not (text_eq (effects_text s) (effects_text t)) || (s == t)

all_told_apart : all_under 32 (λ s. all_under 32 (are_told_apart s)) ≡ true
unfolding all_under effects_text is_empty labels labels_from has bitwise one_bit join_names
    label_text name_at text_eq
all_told_apart = refl

resolved : (x y : Bool) → (not x || y) ≡ true → x ≡ true → y ≡ true
resolved true y h e = h
resolved false y h e = cc

-- On the sets of the five labels, `NewEffectSet` gives back a set from its `Labels`, and `String` gives
-- different texts for different sets.
pub new_effect_set-labels :
    (s t : EffectSet)
    → s < 32
    → t < 32
    → (new_effect_set (labels s) ≡ s) × (effects_text s ≡ effects_text t → s ≡ t)
new_effect_set-labels s t hs ht = (
  (let e = all_under-lt 32 is_kept all_kept s hs in ground arith),
  λ q.
      let e =
        all_under-lt 32 (are_told_apart s)
          (all_under-lt 32 (λ z. all_under 32 (are_told_apart z)) all_told_apart s hs) t ht in
      let r : text_eq (effects_text s) (effects_text t) ≡ true =
        ap (text_eq (effects_text s)) (sym q) ∙ text_eq_refl (effects_text s) in
      let d : (s == t) ≡ true = resolved (text_eq (effects_text s) (effects_text t)) (s == t) e r in
      ground arith,
)

find_name-some :
    (i : ℕ) (ns : List Text) (name : Text) (l : EffectLabel)
    → find_name i ns name ≡ some l
    → (k : ℕ) × (l ≡ i + k) × (k < length ns) × (name_at ns k ≡ name)
unfolding find_name name_at
find_name-some i [] name l h = cc
find_name-some i (n ∷ ns) name l h = elim (Bool-cases (text_eq n name)) [
  | inl e ↦
      let q : find_name i (n ∷ ns) name ≡ some i = rw (e) in
      let same : i ≡ l = cc in (0, omega (arith, same), omega arith, text_eq→eq n name e)
  | inr e ↦
      let q : find_name i (n ∷ ns) name ≡ find_name (suc i) ns name = rw (e) in
      let (k, a, b, c) = find_name-some (suc i) ns name l (sym q ∙ h) in
      (suc k, omega (arith, a), omega (arith, b), c)
]

parse_effect_label-label_text :
    (l : EffectLabel) → l < 5 → parse_effect_label (label_text l) ≡ some l
unfolding parse_effect_label label_text find_name name_at text_eq
parse_effect_label-label_text zero h = refl
parse_effect_label-label_text (suc zero) h = refl
parse_effect_label-label_text (suc (suc zero)) h = refl
parse_effect_label-label_text (suc (suc (suc zero))) h = refl
parse_effect_label-label_text (suc (suc (suc (suc zero)))) h = refl
parse_effect_label-label_text (suc (suc (suc (suc (suc l))))) h = absurd (omega arith)

-- `ParseEffectLabel` accepts exactly the names that `EffectLabel.String` gives the five labels, and
-- returns the label of the name.
pub parse_effect_label_iff :
    (name : Text) (l : EffectLabel)
    → (parse_effect_label name ≡ some l) ↔ ((l < 5) × (label_text l ≡ name))
parse_effect_label_iff name l = (
  unfold parse_effect_label label_text in
      (λ h.
        let (k, a, b, c) = find_name-some 0 effect_names name l h in
        let q : l ≡ k = omega (arith, a) in (omega (arith, q, b), ap (name_at effect_names) q ∙ c)),
  λ h. subst (λ z. parse_effect_label z ≡ some l) h.1 (parse_effect_label-label_text l h.0),
)
