-- ===== src/Types/Effects.antt =====
-- internal/types/effects.go: the labels of effects, and their sets as bits of a `uint8`.
use mochi_beam.Base.{
  ℕ, zero, suc, ◌+◌, ◌*◌, ◌/◌, ◌%◌, ◌^◌, Bool, true, false, not, ◌&&◌, ◌||◌, [], ◌∷◌, ◌++◌, ◌==◌,
  List, Option, some, none, if◌then◌else◌,
}
use mochi_beam.Text.Chars.{Text, codes, text_eq}

-- `EffectLabel`, a `uint8`.
abbrev pub EffectLabel : Type 0
EffectLabel = ℕ

abbrev pub effect_names : List Text
effect_names = codes "io" ∷ codes "fs" ∷ codes "net" ∷ codes "time" ∷ codes "meta" ∷ []

-- `effectMax`.
abbrev pub effect_max : ℕ
effect_max = 5

unfoldable pub name_at : List Text → ℕ → Text
name_at [] l = codes "?"
name_at (n ∷ ns) zero = n
name_at (n ∷ ns) (suc l) = name_at ns l

-- `EffectLabel.String`.
unfoldable pub label_text : EffectLabel → Text
label_text l = name_at effect_names l

unfoldable pub find_name : ℕ → List Text → Text → Option EffectLabel
find_name i [] name = none
find_name i (n ∷ ns) name =
    let rest = find_name (suc i) ns name in if text_eq n name then some i else rest

unfoldable pub parse_effect_label : Text → Option EffectLabel
parse_effect_label name = find_name 0 effect_names name

-- `EffectSet`, a `uint8`.
abbrev pub EffectSet : Type 0
EffectSet = ℕ

-- The operation `f` on the bits of two numbers, for `w` bits.
abbrev pub bit_of : Bool → ℕ
bit_of true = 1
bit_of false = 0

abbrev pub low : ℕ → Bool
low a = a % 2 == 1

unfoldable pub bitwise : (Bool → Bool → Bool) → ℕ → ℕ → ℕ → ℕ
bitwise f zero a b = 0
bitwise f (suc w) a b = bit_of (f (low a) (low b)) + 2 * bitwise f w (a / 2) (b / 2)

-- `s | t`, `s & t` and `s &^ t`.
abbrev pub or_bits : ℕ → ℕ → ℕ
or_bits a b = bitwise (λ x y. x || y) 8 a b

abbrev pub and_bits : ℕ → ℕ → ℕ
and_bits a b = bitwise (λ x y. x && y) 8 a b

abbrev pub clear_bits : ℕ → ℕ → ℕ
clear_bits a b = bitwise (λ x y. x && not y) 8 a b

-- `1 << l`.
unfoldable pub one_bit : EffectLabel → EffectSet
one_bit l = 2 ^ l % 2 ^ 8

-- `EmptyEffects`.
abbrev pub empty_effects : EffectSet
empty_effects = 0

-- `Has`.
unfoldable pub has : EffectSet → EffectLabel → Bool
has s l = not (and_bits s (one_bit l) == 0)

-- `Add`.
unfoldable pub add_label : EffectSet → EffectLabel → EffectSet
add_label s l = or_bits s (one_bit l)

-- `NewEffectSet`.
unfoldable pub add_labels : EffectSet → List EffectLabel → EffectSet
add_labels s [] = s
add_labels s (l ∷ ls) = add_labels (add_label s l) ls

unfoldable pub new_effect_set : List EffectLabel → EffectSet
new_effect_set ls = add_labels empty_effects ls

-- `Union`.
unfoldable pub union_effects : EffectSet → EffectSet → EffectSet
union_effects s t = or_bits s t

-- `IsSubset`.
unfoldable pub is_subset : EffectSet → EffectSet → Bool
is_subset s t = clear_bits s t == 0

-- `IsEmpty`.
unfoldable pub is_empty : EffectSet → Bool
is_empty s = s == 0

-- `Labels`: the loop with `n` labels left, from the label `i`.
unfoldable pub labels_from : ℕ → EffectLabel → EffectSet → List EffectLabel
labels_from zero i s = []
labels_from (suc n) i s = let rest = labels_from n (suc i) s in if has s i then i ∷ rest else rest

unfoldable pub labels : EffectSet → List EffectLabel
labels s = labels_from effect_max 0 s

-- `strings.Join(parts, ", ")` on the names of labels.
unfoldable pub join_names : List EffectLabel → Text
join_names [] = []
join_names (l ∷ []) = label_text l
join_names (l ∷ m ∷ ms) = label_text l ++ (codes ", " ++ join_names (m ∷ ms))

-- `EffectSet.String`.
unfoldable pub effects_text : EffectSet → Text
effects_text s = if is_empty s then codes "pure" else join_names (labels s)
