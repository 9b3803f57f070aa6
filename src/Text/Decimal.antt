-- ===== src/Text/Decimal.antt =====
-- `strconv.Atoi` and the verb `%d`.
use mochi_beam.Base.{
  ℕ, zero, suc, ◌+◌, ◌-◌, ◌*◌, ◌/◌, ◌%◌, ◌^◌, ◌≤◌, ◌<◌, ◌≡◌, ◌≢◌, refl, ap, sym, ◌∙◌, Bool, true,
  false, [], ◌∷◌, ◌++◌, ltb, leb, ◌==◌, if◌then◌else◌, Bool-cases, inl, inr, All, All-append, subst,
  arith, lt→ltb, ltb→lt, not_ltb→le, ne→not_==,
}
use mochi_beam.Base.Int.{ℤ, pos, negsuc, neg_ℕ}
use mochi_beam.Base.Results.{Result, ok, err, ◌>>=◌}
use mochi_beam.Text.Chars.{Text, is_digit, is_space}

-- The digits of `n`, for a fuel above `n`.
unfoldable pub decimal_from : ℕ → ℕ → Text
decimal_from zero n = []
decimal_from (suc fuel) n =
    let rest = decimal_from fuel (n / 10) in
    if ltb n 10 then (48 + n) ∷ [] else rest ++ (48 + n % 10) ∷ []

unfoldable pub decimal : ℕ → Text
decimal n = decimal_from (suc n) n

-- `%d`.
unfoldable pub decimal_ℤ : ℤ → Text
decimal_ℤ (pos n) = decimal n
decimal_ℤ (negsuc n) = b'-' ∷ decimal (suc n)

-- The errors of `strconv.Atoi`.
pub data NumError : Type 0 where
  syntax_error range_error : NumError

-- `n = n*10 + int(ch-'0')`.
unfoldable pub digits_value : ℕ → Text → ℕ
digits_value acc [] = acc
digits_value acc (c ∷ s) = digits_value (acc * 10 + (c - 48)) s

-- An `int` has 64 bits.
abbrev pub in_range : Bool → ℕ → Result NumError ℤ
in_range true n = if leb n (2 ^ 63) then ok (neg_ℕ n) else err range_error
in_range false n = if ltb n (2 ^ 63) then ok (pos n) else err range_error

-- The digits from the left: the first character that is no digit, or the first digit with which the
-- number has more than 64 bits, is the error.
unfoldable pub parse_digits : ℕ → Text → Result NumError ℕ
parse_digits acc [] = ok acc
parse_digits acc (c ∷ s) =
    let more = acc * 10 + (c - 48) in
    let rest = parse_digits more s in
    if is_digit c then if ltb more (2 ^ 64) then rest else err range_error else err syntax_error

unfoldable pub unsigned : Bool → Text → Result NumError ℤ
unsigned negative [] = err syntax_error
unsigned negative (c ∷ s) = parse_digits 0 (c ∷ s) >>= in_range negative

unfoldable pub atoi : Text → Result NumError ℤ
atoi [] = err syntax_error
atoi (c ∷ s) =
    if c == b'+'
    then unsigned false s
    else if c == b'-'
    then unsigned true s
    else unsigned false (c ∷ s)

digits_value-append :
    (acc c : ℕ) (s : Text) → digits_value acc (s ++ c ∷ []) ≡ digits_value acc s * 10 + (c - 48)
unfolding digits_value
digits_value-append acc c [] = refl
digits_value-append acc c (d ∷ s) = digits_value-append (acc * 10 + (d - 48)) c s

decimal_from-value : (fuel n : ℕ) → n < fuel → digits_value 0 (decimal_from fuel n) ≡ n
unfolding decimal_from
decimal_from-value zero n h = absurd (omega arith)
decimal_from-value (suc fuel) n h = elim (Bool-cases (ltb n 10)) [
  | inl small ↦ rw small (unfold digits_value in omega arith)
  | inr large ↦
      let big = not_ltb→le n 10 large in
      rw
        (
          large,
          digits_value-append 0 (48 + n % 10) (decimal_from fuel (n / 10)),
          decimal_from-value fuel (n / 10) (omega arith),
        )
        (omega arith)
]

pub decimal-value : (n : ℕ) → digits_value 0 (decimal n) ≡ n
unfolding decimal
decimal-value n = decimal_from-value (suc n) n (omega arith)

-- The characters of `%d` for a number that is not negative.
abbrev pub IsDigit : ℕ → Type 0
IsDigit c = (48 ≤ c) × (c ≤ 57)

decimal_from-IsDigit : (fuel n : ℕ) → All IsDigit (decimal_from fuel n)
unfolding decimal_from
decimal_from-IsDigit zero n = tt
decimal_from-IsDigit (suc fuel) n = elim (Bool-cases (ltb n 10)) [
  | inl small ↦ let s = ltb→lt n 10 small in rw small (omega arith)
  | inr large ↦ rw large (
      All-append IsDigit (decimal_from fuel (n / 10)) ((48 + n % 10) ∷ [])
        (decimal_from-IsDigit fuel (n / 10)) (omega arith))
]

pub decimal-IsDigit : (n : ℕ) → All IsDigit (decimal n)
unfolding decimal
decimal-IsDigit n = decimal_from-IsDigit (suc n) n

le-digits_value : (acc : ℕ) (s : Text) → acc ≤ digits_value acc s
unfolding digits_value
le-digits_value acc [] = omega arith
le-digits_value acc (c ∷ s) = omega (arith, le-digits_value (acc * 10 + (c - 48)) s)

pub parse_digits-value :
    (acc : ℕ) (s : Text)
    → All IsDigit s
    → digits_value acc s < 2 ^ 64
    → parse_digits acc s ≡ ok (digits_value acc s)
unfolding parse_digits digits_value is_digit
parse_digits-value acc [] d h = refl
parse_digits-value acc (c ∷ s) d h =
    let more = acc * 10 + (c - 48) in
    let small : more < 2 ^ 64 = omega (arith, le-digits_value more s, h) in
    let digit : is_digit c ≡ true = ground (arith, d.0) in
    rw (digit, lt→ltb more (2 ^ 64) small) (parse_digits-value more s d.1 h)

pub IsDigit-solid : (c : ℕ) → IsDigit c → is_space c ≡ false
unfolding is_space
IsDigit-solid c h = ground arith

append_last-ne-nil : (s : Text) (c : ℕ) → s ++ c ∷ [] ≢ []
append_last-ne-nil [] c e = cc
append_last-ne-nil (d ∷ s) c e = cc

decimal-ne-nil : (n : ℕ) → decimal n ≢ []
unfolding decimal decimal_from
decimal-ne-nil n = elim (Bool-cases (ltb n 10)) [
  | inl small ↦ rw small (λ e. cc)
  | inr large ↦ rw large (append_last-ne-nil (decimal_from n (n / 10)) (48 + n % 10))
]

-- A printed number begins with a digit.
pub decimal_head : (n : ℕ) → (c : ℕ) × (s : Text) × (decimal n ≡ c ∷ s)
decimal_head n = go (decimal n) (decimal-ne-nil n)
  where
    go : (t : Text) → t ≢ [] → (c : ℕ) × (s : Text) × (t ≡ c ∷ s)
    go [] h = absurd (h refl)
    go (c ∷ s) h = (c, s, refl)

-- `Atoi` reads back what `%d` printed, for every non-negative `int`.
pub atoi-decimal : (n : ℕ) → n < 2 ^ 63 → atoi (decimal n) ≡ ok (pos n)
unfolding atoi unsigned
atoi-decimal n h =
    let (c, s, e) = decimal_head n in
    let ds = subst (All IsDigit) e (decimal-IsDigit n) in
    let v : digits_value 0 (c ∷ s) ≡ n = ap (digits_value 0) (sym e) ∙ decimal-value n in
    rw
      (
        e,
        ne→not_== c b'+' (λ p. omega arith),
        ne→not_== c b'-' (λ p. omega arith),
        parse_digits-value 0 (c ∷ s) ds (omega (arith, h, v)),
        ap (digits_value 0) (sym e),
        decimal-value n,
      )
      (rw (lt→ltb n (2 ^ 63) h))
