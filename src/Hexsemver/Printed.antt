-- ===== src/Hexsemver/Printed.antt =====
-- hexsemver/hexsemver.go: versions and constraints are read back from what `String` prints.
use mochi_beam.Base.{
  ℕ, ◌^◌, ◌<◌, ◌≡◌, ◌≢◌, refl, ap, sym, subst, ◌∙◌, Bool, true, false, [], ◌∷◌, ◌++◌, arith, All,
  All-append, append_assoc,
}
use mochi_beam.Base.Int.{pos}
use mochi_beam.Base.Results.{ok}
use mochi_beam.Text.Chars.{Text, is_space, has_prefix}
use mochi_beam.Text.Cut.{
  IsFreeOf, split_on, split_on-append, split_on-free, cut_at, cut_at-append, cut_at-free, count_of,
  count_of-word, count_of-free,
}
use mochi_beam.Text.Trim.{
  trim_space, trim_space_fix, trim_space-space, StartsSolid, EndsSolid, EndsSolid-append,
  EndsSolid-All,
}
use mochi_beam.Text.Decimal.{
  decimal, decimal_ℤ, atoi-decimal, IsDigit, decimal-IsDigit, IsDigit-solid, decimal_head,
}
use mochi_beam.Hexsemver.Version.{Version, parse_version, version_text}
use mochi_beam.Hexsemver.Constraint.{
  Constraint, Op, pessimistic, at_least, at_most, greater, less, exactly, op_text, find_op,
  candidates, parse_constraint, constraint_text,
}

All-weaken : {P Q : ℕ → Type 0} (s : Text) → ((c : ℕ) → P c → Q c) → All P s → All Q s
All-weaken [] f h = tt
All-weaken (c ∷ s) f h = (f c h.0, All-weaken s f h.1)

digits-free : (sep : ℕ) (n : ℕ) → sep < 48 → IsFreeOf sep (decimal n)
digits-free sep n h =
    All-weaken {P = IsDigit} {Q = λ c. c ≢ sep} (decimal n) (λ c d e. omega arith)
      (decimal-IsDigit n)

digits-solid : (n : ℕ) → All (λ c. is_space c ≡ false) (decimal n)
digits-solid n =
    All-weaken {P = IsDigit} {Q = λ c. is_space c ≡ false} (decimal n) IsDigit-solid
      (decimal-IsDigit n)

abbrev dotted : ℕ → ℕ → ℕ → Text
dotted a m q = decimal a ++ b'.' ∷ (decimal m ++ b'.' ∷ decimal q)

dotted-free : (a m q : ℕ) → IsFreeOf b'-' (dotted a m q)
dotted-free a m q =
    All-append (λ c. c ≢ b'-') (decimal a) _ (digits-free b'-' a (omega arith))
      (
        omega arith,
        All-append (λ c. c ≢ b'-') (decimal m) _ (digits-free b'-' m (omega arith))
            (omega arith, digits-free b'-' q (omega arith)),
      )

split-dotted : (a m q : ℕ) → split_on b'.' (dotted a m q) ≡ decimal a ∷ decimal m ∷ decimal q ∷ []
split-dotted a m q = rw (
  split_on-append b'.' (decimal a) (decimal m ++ b'.' ∷ decimal q)
      (digits-free b'.' a (omega arith)),
  split_on-append b'.' (decimal m) (decimal q) (digits-free b'.' m (omega arith)),
  split_on-free b'.' (decimal q) (digits-free b'.' q (omega arith)),
)

starts-dotted : (a : ℕ) (rest : Text) → StartsSolid (decimal a ++ rest)
starts-dotted a rest =
    let (c, s, e) = decimal_head a in
    subst (λ t. StartsSolid (t ++ rest)) (sym e)
      (subst (All (λ c. is_space c ≡ false)) e (digits-solid a)).0

abbrev Solid : Text → Type 0
Solid = All (λ c. is_space c ≡ false)

dot_solid : is_space b'.' ≡ false
unfolding is_space
dot_solid = refl

dotted-Solid : (a m q : ℕ) → Solid (dotted a m q)
dotted-Solid a m q =
    All-append (λ c. is_space c ≡ false) (decimal a) _ (digits-solid a)
      (
        dot_solid,
        All-append (λ c. is_space c ≡ false) (decimal m) _ (digits-solid m)
            (dot_solid, digits-solid q),
      )

-- A version with numbers that are not negative.
abbrev pub plain : ℕ → ℕ → ℕ → Text → Version
plain a m q pre = record { major = pos a; minor = pos m; patch = pos q; pre = pre }

version_text-release : (a m q : ℕ) → version_text (plain a m q []) ≡ dotted a m q
unfolding version_text decimal_ℤ
version_text-release a m q = refl

version_text-pre :
    (a m q c : ℕ) (s : Text) → version_text (plain a m q (c ∷ s)) ≡ dotted a m q ++ b'-' ∷ c ∷ s
unfolding version_text decimal_ℤ
version_text-pre a m q c s = refl

version_text-starts : (a m q : ℕ) (pre : Text) → StartsSolid (version_text (plain a m q pre))
version_text-starts a m q [] =
    subst StartsSolid (sym (version_text-release a m q)) (starts-dotted a _)
version_text-starts a m q (c ∷ s) =
    subst StartsSolid
      (sym (
        version_text-pre a m q c s
        ∙ append_assoc (decimal a) (b'.' ∷ (decimal m ++ b'.' ∷ decimal q)) (b'-' ∷ c ∷ s)))
      (starts-dotted a _)

version_text-ends :
    (a m q : ℕ) (pre : Text) → EndsSolid pre → EndsSolid (version_text (plain a m q pre))
version_text-ends a m q [] h =
    subst EndsSolid (sym (version_text-release a m q))
      (EndsSolid-All (dotted a m q) (dotted-Solid a m q))
version_text-ends a m q (c ∷ s) h =
    subst EndsSolid (sym (version_text-pre a m q c s))
      (EndsSolid-append (dotted a m q) b'-' (c ∷ s) h)

version_text-cut :
    (a m q : ℕ) (pre : Text) → (cut_at b'-' (version_text (plain a m q pre))).0 ≡ dotted a m q
version_text-cut a m q [] =
    rw (version_text-release a m q, cut_at-free b'-' (dotted a m q) (dotted-free a m q))
version_text-cut a m q (c ∷ s) =
    rw (version_text-pre a m q c s, cut_at-append b'-' (dotted a m q) (c ∷ s) (dotted-free a m q))

-- `ParseVersion` gives back every version that `Version.String` printed, if its numbers are those of
-- an `int` that is not negative and its pre-release text does not end in a space.
pub parse_version-version_text :
    (a m q : ℕ) (pre : Text)
    → a < 2 ^ 63
    → m < 2 ^ 63
    → q < 2 ^ 63
    → EndsSolid pre
    → parse_version (version_text (plain a m q pre)) ≡ ok (plain a m q pre)
unfolding parse_version
parse_version-version_text a m q [] ha hm hq h = rw (
  trim_space_fix (version_text (plain a m q [])) (version_text-starts a m q [])
      (version_text-ends a m q [] h),
  version_text-release a m q,
  cut_at-free b'-' (dotted a m q) (dotted-free a m q),
  split-dotted a m q,
  atoi-decimal a ha,
  atoi-decimal m hm,
  atoi-decimal q hq,
)
parse_version-version_text a m q (c ∷ s) ha hm hq h = rw (
  trim_space_fix (version_text (plain a m q (c ∷ s))) (version_text-starts a m q (c ∷ s))
      (version_text-ends a m q (c ∷ s) h),
  version_text-pre a m q c s,
  cut_at-append b'-' (dotted a m q) (c ∷ s) (dotted-free a m q),
  split-dotted a m q,
  atoi-decimal a ha,
  atoi-decimal m hm,
  atoi-decimal q hq,
)

abbrev pub constraint_of : Op → Bool → Version → Constraint
constraint_of o p v = record { op = o; version = v; has_patch = p }

two_dots : (a m q : ℕ) → count_of b'.' (dotted a m q) ≡ 2
two_dots a m q = rw (
  count_of-word b'.' (decimal a) (decimal m ++ b'.' ∷ decimal q) (digits-free b'.' a (omega arith)),
  count_of-word b'.' (decimal m) (decimal q) (digits-free b'.' m (omega arith)),
  count_of-free b'.' (decimal q) (digits-free b'.' q (omega arith)),
)

op_text-starts : (o : Op) (rest : Text) → StartsSolid (op_text o ++ rest)
unfolding op_text is_space
op_text-starts pessimistic rest = refl
op_text-starts at_least rest = refl
op_text-starts at_most rest = refl
op_text-starts greater rest = refl
op_text-starts less rest = refl
op_text-starts exactly rest = refl

operator_kept :
    (o : Op) (c : ℕ) (t : Text)
    → EndsSolid (c ∷ t)
    → trim_space (op_text o ++ b' ' ∷ c ∷ t) ≡ op_text o ++ b' ' ∷ c ∷ t
operator_kept o c t k =
    trim_space_fix (op_text o ++ b' ' ∷ c ∷ t) (op_text-starts o (b' ' ∷ c ∷ t))
      (EndsSolid-append (op_text o) b' ' (c ∷ t) k)

space_off :
    (c : ℕ) (t : Text) → StartsSolid (c ∷ t) → EndsSolid (c ∷ t) → trim_space (b' ' ∷ c ∷ t) ≡ c ∷ t
space_off c t h k =
    trim_space-space b' ' (c ∷ t) (unfold is_space in refl) ∙ trim_space_fix (c ∷ t) h k

-- The text of an operator, and the space, are taken off.
operator_off :
    (o : Op) (c : ℕ) (t : Text)
    → StartsSolid (c ∷ t)
    → EndsSolid (c ∷ t)
    → find_op (trim_space (op_text o ++ b' ' ∷ c ∷ t)) candidates ≡ (o, c ∷ t)
unfolding find_op op_text has_prefix
operator_off pessimistic c t h k = rw (operator_kept pessimistic c t k, space_off c t h k)
operator_off at_least c t h k = rw (operator_kept at_least c t k, space_off c t h k)
operator_off at_most c t h k = rw (operator_kept at_most c t k, space_off c t h k)
operator_off greater c t h k = rw (operator_kept greater c t k, space_off c t h k)
operator_off less c t h k = rw (operator_kept less c t k, space_off c t h k)
operator_off exactly c t h k = rw (operator_kept exactly c t k, space_off c t h k)

version_text-nonempty :
    (a m q : ℕ) (pre : Text) → (c : ℕ) × (t : Text) × (version_text (plain a m q pre) ≡ c ∷ t)
version_text-nonempty a m q pre = go pre
  where
    go : (pre : Text) → (c : ℕ) × (t : Text) × (version_text (plain a m q pre) ≡ c ∷ t)
    go [] =
        let (c, s, e) = decimal_head a in
        (c, _, version_text-release a m q ∙ ap (λ x. x ++ b'.' ∷ (decimal m ++ b'.' ∷ decimal q)) e)
    go (d ∷ r) =
        let (c, s, e) = decimal_head a in
        (
          c,
          _,
          version_text-pre a m q d r
              ∙ ap (λ x. (x ++ b'.' ∷ (decimal m ++ b'.' ∷ decimal q)) ++ b'-' ∷ d ∷ r) e,
        )

operator_off_version :
    (o : Op) (a m q : ℕ) (pre : Text)
    → EndsSolid pre
    → find_op (trim_space (op_text o ++ b' ' ∷ version_text (plain a m q pre))) candidates
      ≡ (o, version_text (plain a m q pre))
operator_off_version o a m q pre h =
    let (c, t, e) = version_text-nonempty a m q pre in
    subst (λ x. find_op (trim_space (op_text o ++ b' ' ∷ x)) candidates ≡ (o, x)) (sym e)
      (operator_off o c t (subst StartsSolid e (version_text-starts a m q pre))
        (subst EndsSolid e (version_text-ends a m q pre h)))

-- `ParseConstraint` gives back the operator and the version that `Constraint.String` printed, and
-- always takes the version for one with a patch.
pub parse_constraint-constraint_text :
    (o : Op) (p : Bool) (a m q : ℕ) (pre : Text)
    → a < 2 ^ 63
    → m < 2 ^ 63
    → q < 2 ^ 63
    → EndsSolid pre
    → parse_constraint (constraint_text (constraint_of o p (plain a m q pre)))
      ≡ ok (constraint_of o true (plain a m q pre))
unfolding parse_constraint constraint_text
parse_constraint-constraint_text o p a m q pre ha hm hq h = rw (
  operator_off_version o a m q pre h,
  parse_version-version_text a m q pre ha hm hq h,
  version_text-cut a m q pre,
  two_dots a m q,
)
