-- ===== src/Types/EffectTests.antt =====
-- Runs of internal/types/effects.go, and instances of the theorems.
use mochi_beam.Base.{◌≡◌, ◌↔◌, ◌<◌, ◌||◌, arith, refl, true, false, [], ◌∷◌, some, none}
use mochi_beam.Text.Chars.{codes, text_eq}
use mochi_beam.Types.Effects.{
  EffectLabel, EffectSet, label_text, name_at, parse_effect_label, find_name, new_effect_set,
  add_labels, add_label, bitwise, one_bit, has, union_effects, is_subset, is_empty, labels,
  labels_from, effects_text, join_names,
}
use mochi_beam.Types.EffectNames.{new_effect_set-labels, parse_effect_label_iff}
use mochi_beam.Types.EffectSets.{is_subset_iff_has}

-- Input and output, and the network.
net_and_io : new_effect_set (2 ∷ 0 ∷ 2 ∷ []) ≡ 5
unfolding new_effect_set add_labels add_label bitwise one_bit
net_and_io = refl

in_order : effects_text 5 ≡ codes "io, net"
unfolding effects_text is_empty labels labels_from has bitwise one_bit join_names label_text name_at
in_order = refl

no_effects : effects_text 0 ≡ codes "pure"
unfolding effects_text is_empty
no_effects = refl

parses : parse_effect_label (codes "time") ≡ some 3
unfolding parse_effect_label find_name text_eq
parses = refl

unknown_label : parse_effect_label (codes "gpu") ≡ none
unfolding parse_effect_label find_name text_eq
unknown_label = refl

within : is_subset 4 5 ≡ true
unfolding is_subset bitwise
within = refl

not_within : is_subset 5 4 ≡ false
unfolding is_subset bitwise
not_within = refl

is_subset_iff_has_example :
    ((l : EffectLabel) → l < 8 → has (union_effects 4 5) l ≡ (has 4 l || has 5 l))
    × ((is_subset 4 5 ≡ true) ↔ ((l : EffectLabel) → l < 8 → has 4 l ≡ true → has 5 l ≡ true))
is_subset_iff_has_example = is_subset_iff_has 4 5

abbrev five : EffectSet
five = 5

new_effect_set-labels_example :
    (new_effect_set (labels 5) ≡ 5) × (effects_text 5 ≡ effects_text 4 → five ≡ 4)
new_effect_set-labels_example = new_effect_set-labels 5 4 (omega arith) (omega arith)

parse_effect_label_iff_example :
    (parse_effect_label (codes "net") ≡ some 2) ↔ ((2 < 5) × (label_text 2 ≡ codes "net"))
parse_effect_label_iff_example = parse_effect_label_iff (codes "net") 2
