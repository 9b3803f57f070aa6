-- ===== src/Hexsemver/Ranges.antt =====
-- hexsemver/hexsemver.go: the range that `~>` stands for, and the filter on pre-releases.
use mochi_beam.Base.{
  ℕ, zero, suc, ◌≡◌, refl, sym, ◌∙◌, Bool, true, false, not, ◌&&◌, [], ◌∷◌, arith, Bool-cases, inl,
  inr, if◌then◌else◌,
}
use mathlib.Core.Path.{ap₂}
use mochi_beam.Base.Int.{ℤ, pos, negsuc}
use mochi_beam.Text.Order.{Sign, below, same, above}
use mochi_beam.Hexsemver.Version.{Version, cmp_int, then_by, compare_version}
use mochi_beam.Hexsemver.Constraint.{
  Constraint, Op, pessimistic, at_least, less, matches, satisfies, eq_ℤ, is_below, is_same,
}

-- One more, without the wrap-around at the end of `int`.
abbrev pub suc_ℤ : ℤ → ℤ
suc_ℤ (pos n) = pos (suc n)
suc_ℤ (negsuc zero) = pos 0
suc_ℤ (negsuc (suc n)) = negsuc n

-- The version below which `~>` stays: the next minor version if a patch was written, and the next
-- major version if not.
abbrev pub ceiling : Bool → Version → Version
ceiling true w = record { major = w.major; minor = suc_ℤ w.minor; patch = pos 0; pre = [] }
ceiling false w = record { major = suc_ℤ w.major; minor = pos 0; patch = pos 0; pre = [] }

abbrev pub constraint : Op → Version → Constraint
constraint o w = record { op = o; version = w; has_patch = true }

abbrev pub release : ℤ → ℕ → ℕ → Version
release a m p = record { major = a; minor = pos m; patch = pos p; pre = [] }

is_above-or-same :
    (a b : ℤ) → is_below (cmp_int a b) ≡ false → eq_ℤ a b ≡ is_below (cmp_int a (suc_ℤ b))
is_above-or-same (pos a) (pos b) h = ground arith
is_above-or-same (pos a) (negsuc zero) h = ground arith
is_above-or-same (pos a) (negsuc (suc b)) h = ground arith
is_above-or-same (negsuc a) (pos b) h = ground arith
is_above-or-same (negsuc a) (negsuc zero) h = ground arith
is_above-or-same (negsuc a) (negsuc (suc b)) h = ground arith

eq_ℤ-is_same : (a b : ℤ) → eq_ℤ a b ≡ is_same (cmp_int a b)
eq_ℤ-is_same a b = ground arith

then_by-not_below : (x y : Sign) → is_below (then_by x y) ≡ false → is_below x ≡ false
then_by-not_below below y h = cc
then_by-not_below same y h = refl
then_by-not_below above y h = refl

is_below-then_by : (x y : Sign) → is_below y ≡ false → is_below (then_by x y) ≡ is_below x
is_below-then_by below y h = refl
is_below-then_by same y h = h
is_below-then_by above y h = refl

-- No release with fields that are not negative is below x.0.0 for its own x, nor below x.y.0.
rest_not_below :
    (m p : ℕ)
    → is_below (then_by (cmp_int (pos m) (pos 0)) (then_by (cmp_int (pos p) (pos 0)) same)) ≡ false
rest_not_below m p = ground arith

patch_not_below : (p : ℕ) → is_below (then_by (cmp_int (pos p) (pos 0)) same) ≡ false
patch_not_below p = ground arith

-- The test that `~>` makes of a version that is not below its own.
same_series : Bool → Version → Version → Bool
same_series p v w =
    if not p then eq_ℤ v.major w.major else eq_ℤ v.major w.major && eq_ℤ v.minor w.minor

minor_series :
    (x y z rest : Sign)
    → is_below (then_by x (then_by y rest)) ≡ false
    → (is_below y ≡ false → is_same y ≡ is_below z)
    → (is_same x && is_same y) ≡ is_below (then_by x z)
minor_series below y z rest h k = cc
minor_series same y z rest h k = k (then_by-not_below y rest h)
minor_series above y z rest h k = refl

series-ceiling :
    (p : Bool) (a : ℤ) (m q : ℕ) (w : Version)
    → is_below (compare_version (release a m q) w) ≡ false
    → same_series p (release a m q) w ≡ is_below (compare_version (release a m q) (ceiling p w))
unfolding same_series compare_version
series-ceiling false a m q w h =
    is_above-or-same a w.major (then_by-not_below (cmp_int a w.major) _ h)
    ∙ sym (is_below-then_by (cmp_int a (suc_ℤ w.major)) _ (rest_not_below m q))
series-ceiling true a m q w h =
    ap₂ ◌&&◌ (eq_ℤ-is_same a w.major) (eq_ℤ-is_same (pos m) w.minor)
    ∙ minor_series (cmp_int a w.major) (cmp_int (pos m) w.minor) _ _ h (λ k.
      sym (eq_ℤ-is_same (pos m) w.minor)
      ∙ is_above-or-same (pos m) w.minor k
      ∙ sym (is_below-then_by (cmp_int (pos m) (suc_ℤ w.minor)) _ (patch_not_below q)))

as_if : (b : Bool) → b ≡ (if not b then false else true)
as_if true = refl
as_if false = refl

-- On a release whose minor and patch are not negative, `~> w` is `>= w` together with `<` the next
-- minor version if `w` was written with a patch, and `<` the next major version if not.
pub matches-pessimistic :
    (p : Bool) (w : Version) (a : ℤ) (m q : ℕ)
    → matches (record { op = pessimistic; version = w; has_patch = p }) (release a m q)
      ≡ satisfies (constraint at_least w ∷ constraint less (ceiling p w) ∷ []) (release a m q)
unfolding matches satisfies same_series
matches-pessimistic p w a m q = elim (Bool-cases (is_below (compare_version (release a m q) w))) [
  | inl lower ↦ rw (lower)
  | inr high ↦ rw high (
      series-ceiling p a m q w high
      ∙ as_if (is_below (compare_version (release a m q) (ceiling p w))))
]
