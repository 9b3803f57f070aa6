-- ===== src/Types/Fresh.antt =====
-- internal/types/poly.go: the names that `FreshTypeVar` gives.
use mochi_beam.Base.{◌+◌, ◌^◌, ◌%◌, ◌<◌, ◌≡◌, ◌≢◌, sym, ap, ◌∙◌, [], ◌∷◌, ◌++◌, All, arith}
use mochi_beam.Text.Chars.{Text}
use mochi_beam.Text.Decimal.{decimal, digits_value, decimal-value, IsDigit, decimal-IsDigit}
use mochi_beam.Types.Poly.{Counter, fresh_type_var}

abbrev tail_of : Text → Text
tail_of [] = []
tail_of (c ∷ s) = s

digits-ne-hash : (x d e : Text) → All IsDigit d → d ≢ x ++ (35 ∷ e)
digits-ne-hash [] [] e h q = cc
digits-ne-hash [] (c ∷ d) e h q = let p : c ≡ 35 = cc in omega (arith, p, h.0)
digits-ne-hash (b ∷ x) [] e h q = cc
digits-ne-hash (b ∷ x) (c ∷ d) e h q = digits-ne-hash x d e h.1 (ap tail_of q)

-- The digits after the last `#` are the suffix.
suffix-injective :
    (x y d e : Text) → All IsDigit d → All IsDigit e → x ++ (35 ∷ d) ≡ y ++ (35 ∷ e) → d ≡ e
suffix-injective [] [] d e hd he q = ap tail_of q
suffix-injective [] (b ∷ y) d e hd he q = absurd (digits-ne-hash y d e hd (ap tail_of q))
suffix-injective (a ∷ x) [] d e hd he q = absurd (digits-ne-hash x e d he (sym (ap tail_of q)))
suffix-injective (a ∷ x) (b ∷ y) d e hd he q = suffix-injective x y d e hd he (ap tail_of q)

next-injective :
    (m n : Counter) → m < 2 ^ 64 → n < 2 ^ 64 → (m + 1) % 2 ^ 64 ≡ (n + 1) % 2 ^ 64 → m ≡ n
next-injective m n hm hn q = omega (arith, q)

-- Two calls of `FreshTypeVar` at different values of the counter, of 64 bits, give different names,
-- whatever their bases are.
pub fresh_type_var_distinct :
    (a b : Text) (m n : Counter)
    → m < 2 ^ 64
    → n < 2 ^ 64
    → m ≢ n
    → (fresh_type_var a m).0 ≢ (fresh_type_var b n).0
unfolding fresh_type_var
fresh_type_var_distinct a b m n hm hn apart q =
    let i = (m + 1) % 2 ^ 64 in
    let j = (n + 1) % 2 ^ 64 in
    let d =
      suffix-injective _ _ (decimal i) (decimal j) (decimal-IsDigit i) (decimal-IsDigit j) q in
    apart
      (next-injective m n hm hn (sym (decimal-value i) ∙ ap (digits_value 0) d ∙ decimal-value j))
