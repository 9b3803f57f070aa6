-- ===== src/Base/Results.antt =====
-- The pair of a Go result and its error, when exactly one of them is set.

pub data Result {ℓ κ} (E : Type ℓ) (A : Type κ) : Type (ℓ ⊔ κ) where
  ok : A → Result E A
  err : E → Result E A

infixl 5 ◌>>=◌
abbrev pub ◌>>=◌ {ℓ κ ℓ'} :
    {E : Type ℓ} {A : Type κ} {B : Type ℓ'} → Result E A → (A → Result E B) → Result E B
ok a >>= f = f a
err e >>= f = err e

-- The error is wrapped by `fmt.Errorf` with `%w`.
abbrev pub map_err {ℓ κ ℓ'} :
    {E : Type ℓ} {F : Type κ} {A : Type ℓ'} → (E → F) → Result E A → Result F A
map_err g (ok a) = ok a
map_err g (err e) = err (g e)
