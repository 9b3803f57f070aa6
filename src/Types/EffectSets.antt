-- ===== src/Types/EffectSets.antt =====
-- internal/types/effects.go: the sets of effects as sets of labels.
use mochi_beam.Base.{
  ℕ, zero, suc, ◌+◌, ◌*◌, ◌/◌, ◌^◌, ◌<◌, ◌≤◌, ◌≡◌, ◌↔◌, refl, sym, ap, ◌∙◌, Bool, true, false, not,
  ◌&&◌, ◌||◌, ◌==◌, arith, Bool-cases, inl, inr,
}
use mathlib.Core.Path.{ap₂}
use native.Mathlib.Nat.{mod-eq_of_lt, pow-le-pow_right}
use mochi_beam.Types.Effects.{
  EffectLabel, EffectSet, bit_of, low, bitwise, and_bits, one_bit, has, union_effects, is_subset,
}

-- The bit `i`.
unfoldable bit : ℕ → ℕ → Bool
bit a zero = low a
bit a (suc i) = bit (a / 2) i

low-bit_of : (x : Bool) (r : ℕ) → low (bit_of x + 2 * r) ≡ x
low-bit_of true r = ground arith
low-bit_of false r = ground arith

half-bit_of : (x : Bool) (r : ℕ) → (bit_of x + 2 * r) / 2 ≡ r
half-bit_of true r = omega arith
half-bit_of false r = omega arith

is_zero-bit_of : (x : Bool) (r : ℕ) → (bit_of x + 2 * r == 0) ≡ (not x && (r == 0))
is_zero-bit_of true r = ground arith
is_zero-bit_of false r = ground arith

bit-bitwise :
    (f : Bool → Bool → Bool) (w i a b : ℕ) → i < w → bit (bitwise f w a b) i ≡ f (bit a i) (bit b i)
unfolding bit bitwise
bit-bitwise f zero i a b h = absurd (omega arith)
bit-bitwise f (suc w) zero a b h = low-bit_of (f (low a) (low b)) (bitwise f w (a / 2) (b / 2))
bit-bitwise f (suc w) (suc i) a b h =
    ap (λ z. bit z i) (half-bit_of (f (low a) (low b)) (bitwise f w (a / 2) (b / 2)))
    ∙ bit-bitwise f w i (a / 2) (b / 2) (omega arith)

drop_false : (x y k : Bool) → y ≡ false → (not (x && y) && k) ≡ k
drop_false x true k h = cc
drop_false true false k h = refl
drop_false false false k h = refl

and_zero : (w a : ℕ) → bitwise (λ x y. x && y) w a 0 ≡ 0
unfolding bitwise
and_zero zero a = refl
and_zero (suc w) a = elim (Bool-cases (low a)) [
  | inl e ↦ rw (e, and_zero w (a / 2))
  | inr e ↦ rw (e, and_zero w (a / 2))
]

and_one_bit : (w i a : ℕ) → i < w → (bitwise (λ x y. x && y) w a (2 ^ i) == 0) ≡ not (bit a i)
unfolding bitwise bit
and_one_bit zero i a h = absurd (omega arith)
and_one_bit (suc w) zero a h = elim (Bool-cases (low a)) [
  | inl e ↦ rw (e, and_zero w (a / 2))
  | inr e ↦ rw (e, and_zero w (a / 2))
]
and_one_bit (suc w) (suc i) a h =
    let q : low (2 ^ suc i) ≡ false = ground arith in
    let r : 2 ^ suc i / 2 ≡ 2 ^ i = omega arith in
    is_zero-bit_of (low a && low (2 ^ suc i)) _
    ∙ drop_false (low a) (low (2 ^ suc i)) _ q
    ∙ ap (λ z. bitwise (λ x y. x && y) w (a / 2) z == 0) r
    ∙ and_one_bit w i (a / 2) (omega arith)

keeps : (x y k : Bool) → (not (x && not y) && k) ≡ true → (x ≡ true → y ≡ true) × (k ≡ true)
keeps true true k h = (λ e. refl, h)
keeps true false k h = cc
keeps false y k h = (λ e. cc, h)

kept : (x y k : Bool) → (x ≡ true → y ≡ true) → k ≡ true → (not (x && not y) && k) ≡ true
kept true y k h e = rw (h refl, e)
kept false y k h e = e

clear→within :
    (w a b : ℕ)
    → (bitwise (λ x y. x && not y) w a b == 0) ≡ true
    → (i : ℕ) → i < w
    → bit a i ≡ true
    → bit b i ≡ true
unfolding bitwise bit
clear→within zero a b h i l e = absurd (omega arith)
clear→within (suc w) a b h zero l e =
    let k = keeps (low a) (low b) _ (sym (is_zero-bit_of (low a && not (low b)) _) ∙ h) in k.0 e
clear→within (suc w) a b h (suc i) l e =
    let k = keeps (low a) (low b) _ (sym (is_zero-bit_of (low a && not (low b)) _) ∙ h) in
    clear→within w (a / 2) (b / 2) k.1 i (omega arith) e

within→clear :
    (w a b : ℕ)
    → ((i : ℕ) → i < w → bit a i ≡ true → bit b i ≡ true)
    → (bitwise (λ x y. x && not y) w a b == 0) ≡ true
unfolding bitwise bit
within→clear zero a b h = refl
within→clear (suc w) a b h =
    is_zero-bit_of (low a && not (low b)) _
    ∙ kept (low a) (low b) _ (h 0 (omega arith))
        (within→clear w (a / 2) (b / 2) (λ i l e. h (suc i) (omega arith) e))

one_bit-lt : (l : EffectLabel) → l < 8 → one_bit l ≡ 2 ^ l
unfolding one_bit
one_bit-lt l h =
    let q : 2 ^ l ≤ 2 ^ 7 = pow-le-pow_right (omega arith) {j = 7} (omega arith) in
    mod-eq_of_lt (omega (arith, q))

not_involutive : (b : Bool) → not (not b) ≡ b
not_involutive true = refl
not_involutive false = refl

has-bit : (s : EffectSet) (l : EffectLabel) → l < 8 → has s l ≡ bit s l
unfolding has
has-bit s l h =
    let q : (and_bits s (one_bit l) == 0) ≡ not (bit s l) =
      ap (λ z. and_bits s z == 0) (one_bit-lt l h) ∙ and_one_bit 8 l s h in
    ap not q ∙ not_involutive (bit s l)

-- A set of effects is the set of the labels that `Has` finds in it: `Union` has the labels of both
-- sets and no other, and `IsSubset` says exactly that each label of the first is one of the second.
pub is_subset_iff_has :
    (s t : EffectSet)
    → ((l : EffectLabel) → l < 8 → has (union_effects s t) l ≡ (has s l || has t l))
      × ((is_subset s t ≡ true) ↔ ((l : EffectLabel) → l < 8 → has s l ≡ true → has t l ≡ true))
unfolding union_effects is_subset
is_subset_iff_has s t = (
  λ l h.
      has-bit (union_effects s t) l h
      ∙ bit-bitwise (λ x y. x || y) 8 l s t h
      ∙ ap₂ ◌||◌ (sym (has-bit s l h)) (sym (has-bit t l h)),
  (
    λ e l h k. has-bit t l h ∙ clear→within 8 s t e l h (sym (has-bit s l h) ∙ k),
    λ f. within→clear 8 s t (λ l h k. sym (has-bit t l h) ∙ f l h (has-bit s l h ∙ k)),
  ),
)
