-- ===== src/Types/Kinds.antt =====
-- internal/types/kinds.go: the types of the checker.
use mochi_beam.Base.{ℕ, zero, suc, ◌≡◌, refl, sym, ap, ◌∙◌, ==→eq, Bool, true, List, ◌==◌}
use mochi_beam.Text.Chars.{Text}

-- The kinds without children, with one child, and with two.
pub data Plain : Type 0 where
  any value int int64 big_int big_rat float string bool unit : Plain

pub data Wrap : Type 0 where
  set list option chan stream sub future : Wrap

pub data Pair : Type 0 where
  map omap group : Pair

-- `struct` has its name and its fields, `union` its name and its variants with their fields, `func`
-- its parameters, its element type if it is variadic, its result, its effects and its type
-- parameters. `Opt` is a type that may be nil. The methods of a struct are left out.
mutual
  pub data Ty : Type 0 where
    plain : Plain → Ty
    wrap : Wrap → Ty → Ty
    pair : Pair → Ty → Ty → Ty
    struct : Text → Fields → Ty
    union : Text → Variants → Ty
    func : Tys → Opt → Opt → ℕ → List Text → Ty
    var : Text → Ty

  pub data Tys : Type 0 where
    none : Tys
    more : Ty → Tys → Tys

  pub data Opt : Type 0 where
    nil : Opt
    given : Ty → Opt

  pub data Fields : Type 0 where
    no_fields : Fields
    field : Text → Ty → Fields → Fields

  pub data Variants : Type 0 where
    no_variants : Variants
    variant : Text → Fields → Variants → Variants

-- Whether two kinds are the same one.
number_of_plain : Plain → ℕ
number_of_plain any = 0
number_of_plain value = 1
number_of_plain int = 2
number_of_plain int64 = 3
number_of_plain big_int = 4
number_of_plain big_rat = 5
number_of_plain float = 6
number_of_plain string = 7
number_of_plain bool = 8
number_of_plain unit = 9

unfoldable pub same_plain : Plain → Plain → Bool
unfolding number_of_plain
same_plain a b = number_of_plain a == number_of_plain b

number_of_wrap : Wrap → ℕ
number_of_wrap set = 0
number_of_wrap list = 1
number_of_wrap option = 2
number_of_wrap chan = 3
number_of_wrap stream = 4
number_of_wrap sub = 5
number_of_wrap future = 6

wrap_of : ℕ → Wrap
wrap_of zero = set
wrap_of (suc zero) = list
wrap_of (suc (suc zero)) = option
wrap_of (suc (suc (suc zero))) = chan
wrap_of (suc (suc (suc (suc zero)))) = stream
wrap_of (suc (suc (suc (suc (suc zero))))) = sub
wrap_of (suc (suc (suc (suc (suc (suc n)))))) = future

unfoldable pub same_wrap : Wrap → Wrap → Bool
unfolding number_of_wrap
same_wrap a b = number_of_wrap a == number_of_wrap b

number_of_pair : Pair → ℕ
number_of_pair map = 0
number_of_pair omap = 1
number_of_pair group = 2

unfoldable pub same_pair : Pair → Pair → Bool
unfolding number_of_pair
same_pair a b = number_of_pair a == number_of_pair b

wrap_of-number : (k : Wrap) → wrap_of (number_of_wrap k) ≡ k
unfolding wrap_of number_of_wrap
wrap_of-number set = refl
wrap_of-number list = refl
wrap_of-number option = refl
wrap_of-number chan = refl
wrap_of-number stream = refl
wrap_of-number sub = refl
wrap_of-number future = refl

pub same_wrap→eq : (k l : Wrap) → same_wrap k l ≡ true → k ≡ l
unfolding same_wrap
same_wrap→eq k l h =
    sym (wrap_of-number k)
    ∙ (ap wrap_of (==→eq (number_of_wrap k) (number_of_wrap l) h) ∙ wrap_of-number l)

plain_of : ℕ → Plain
plain_of zero = any
plain_of (suc zero) = value
plain_of (suc (suc zero)) = int
plain_of (suc (suc (suc zero))) = int64
plain_of (suc (suc (suc (suc zero)))) = big_int
plain_of (suc (suc (suc (suc (suc zero))))) = big_rat
plain_of (suc (suc (suc (suc (suc (suc zero)))))) = float
plain_of (suc (suc (suc (suc (suc (suc (suc zero))))))) = string
plain_of (suc (suc (suc (suc (suc (suc (suc (suc zero)))))))) = bool
plain_of (suc (suc (suc (suc (suc (suc (suc (suc (suc n))))))))) = unit

plain_of-number : (k : Plain) → plain_of (number_of_plain k) ≡ k
unfolding plain_of number_of_plain
plain_of-number any = refl
plain_of-number value = refl
plain_of-number int = refl
plain_of-number int64 = refl
plain_of-number big_int = refl
plain_of-number big_rat = refl
plain_of-number float = refl
plain_of-number string = refl
plain_of-number bool = refl
plain_of-number unit = refl

pub same_plain→eq : (k l : Plain) → same_plain k l ≡ true → k ≡ l
unfolding same_plain
same_plain→eq k l h =
    sym (plain_of-number k)
    ∙ (ap plain_of (==→eq (number_of_plain k) (number_of_plain l) h) ∙ plain_of-number l)
