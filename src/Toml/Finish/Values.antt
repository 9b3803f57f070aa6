-- ===== src/Toml/Finish/Values.antt =====
-- internal/toml/parser.go: keys and values end within the fuel, and leave less than they got.
use mochi_beam.Base.{
  ℕ, zero, suc, ◌+◌, ◌≤◌, ◌<◌, ◌≡◌, Bool, true, false, [], ◌∷◌, ◌++◌, ◌==◌, ◌||◌, length, arith,
  drop,
}
use mochi_beam.Base.Results.{ok, err, Result}
use mochi_beam.Base.Int.{ℤ}
use mochi_beam.Text.Chars.{Text, is_digit, has_prefix, codes}
use mochi_beam.Text.Decimal.{NumError, atoi}
use mochi_beam.Toml.Values.{
  Parsed, Value, Number, non_decimal, bad_int, bad_float, expected_digit, expected_bool,
  expected_key,
}
use mochi_beam.Toml.Scan.{peek, advance, span, is_bare}
use mochi_beam.Toml.Strings.{parse_string}
use mochi_beam.Toml.Numbers.{
  sign_of_number, is_sign, number_digits, is_base, fraction, exponent, parse_float, float_result,
  int_result, number_end, parse_number, parse_bool,
}
use mochi_beam.Toml.Parse.{parse_key, is_quote}
use mochi_beam.Toml.Finish.Consumes.{
  Ends, Ends-at, Ends-if, if_le, left, rest, length-advance, span-length, parse_string-Ends,
}

Ends-left :
    {A : Type 0} (n m : ℕ) (o : Parsed (A × Text)) → suc n ≤ m → Ends rest n o → Ends left m o
Ends-left n m (ok x) h e = omega arith
Ends-left n m (err x) h e = e

shorter : (s : Text) → is_quote (peek s) ≡ true → suc (length (advance s)) ≤ length s
unfolding is_quote peek advance
shorter [] h = cc
shorter (c ∷ s) h = omega arith

float_result-Ends :
    (raw r : Text) (n : ℕ) (o : Result {0, 0} Number Value)
    → length r ≤ n
    → Ends rest n (float_result raw r o)
float_result-Ends raw r n (ok v) h = h
float_result-Ends raw r n (err e) h = Ends-at (rest {A = Value}) n r (bad_float raw e)

int_result-Ends :
    (raw r : Text) (n : ℕ) (o : Result {0, 0} NumError ℤ)
    → length r ≤ n
    → Ends rest n (int_result raw r o)
int_result-Ends raw r n (ok v) h = h
int_result-Ends raw r n (err e) h = Ends-at (rest {A = Value}) n r (bad_int raw e)

drop_le : (n : ℕ) (s : Text) → suc (length (drop n s)) ≤ suc (length s)
drop_le zero s = omega arith
drop_le (suc n) [] = omega arith
drop_le (suc n) (c ∷ s) = let h = drop_le n s in omega arith

length-fraction : (s : Text) → length (fraction s).1 ≤ length s
unfolding fraction
length-fraction s =
    let a = length-advance s in
    let b = span-length is_digit (advance s) in
    if_le rest (length s) (peek s == 46) _ _ (omega arith) (omega arith)

length-sign_of_number : (s : Text) → length (sign_of_number s).1 ≤ length s
unfolding sign_of_number
length-sign_of_number s =
    if_le rest (length s) (is_sign (peek s)) _ _ (length-advance s) (omega arith)

length-exponent : (s : Text) → length (exponent s).1 ≤ length s
unfolding exponent
length-exponent s =
    let a = length-advance s in
    let r = (sign_of_number (advance s)).1 in
    let b = length-sign_of_number (advance s) in
    let c = span-length is_digit r in
    if_le rest (length s) ((peek s == 101) || (peek s == 69)) _ _ (omega arith) (omega arith)

number_end-Ends : (g w s : Text) → Ends rest (length s) (number_end g w s)
unfolding number_end
number_end-Ends g w s =
    let (f, r) = fraction s in
    let (e, r2) = exponent r in
    let a = length-fraction s in
    let b = length-exponent r in
    Ends-if rest (length s) (is_base (peek s)) _ _
      (λ _. Ends-at (rest {A = Value}) (length s) s non_decimal)
      (λ _.
        Ends-if rest (length s) (f.0 || e.0) _ _
          (λ _. float_result-Ends _ r2 (length s) (parse_float g w f.1 e) (omega arith))
          (λ _. int_result-Ends _ r2 (length s) (atoi (g ++ w)) (omega arith)))

number_digits-length :
    (seen : Bool) (s : Text)
    → length (number_digits seen s).0 + length (number_digits seen s).1 ≤ length s
unfolding number_digits
number_digits-length seen [] = omega arith
number_digits-length seen (c ∷ s) = ground (arith, number_digits-length (seen || is_digit c) s)

pub parse_number-Ends : (s : Text) → Ends left (length s) (parse_number s)
unfolding parse_number
parse_number-Ends s =
    let (g, r) = sign_of_number s in
    let (w, r2) = number_digits false r in
    let a = length-sign_of_number s in
    let b = number_digits-length false r in
    Ends-if left (length s) (length w == 0) _ _
      (λ _. Ends-at (left {A = Value}) (length s) r2 (expected_digit (peek r2)))
      (λ h.
        let long : 0 < length w = ground arith in
        Ends-left (length r2) (length s) (number_end g w r2) (omega arith) (number_end-Ends g w r2))

pub parse_bool-Ends : (s : Text) → Ends left (length s) (parse_bool s)
unfolding parse_bool has_prefix
parse_bool-Ends [] = Ends-at (left {A = Value}) 0 [] expected_bool
parse_bool-Ends (c ∷ s) =
    Ends-if left (suc (length s)) (has_prefix (c ∷ s) (codes "true")) _ _ (λ _. drop_le 3 s)
      (λ _.
        Ends-if left (suc (length s)) (has_prefix (c ∷ s) (codes "false")) _ _ (λ _. drop_le 4 s)
          (λ _. Ends-at (left {A = Value}) (suc (length s)) (c ∷ s) expected_bool))

pub parse_key-Ends : (s : Text) → Ends left (length s) (parse_key s)
unfolding parse_key
parse_key-Ends s =
    let (w, r) = span is_bare s in
    let a = span-length is_bare s in
    Ends-if left (length s) (is_quote (peek s)) _ _
      (λ h.
        Ends-left (length (advance s)) (length s) (parse_string (peek s) (advance s)) (shorter s h)
          (parse_string-Ends (peek s) (advance s)))
      (λ _.
        Ends-if left (length s) (length w == 0) _ _
          (λ _. Ends-at (left {A = Text}) (length s) s (expected_key (peek s))) (λ h. ground arith))
