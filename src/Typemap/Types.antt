-- ===== src/Typemap/Types.antt =====
-- typemap/typemap.go: the results of a translation, their texts, and the errors.
use mochi_beam.Base.{ℕ, suc, [], ◌∷◌, ◌++◌, List}
use mochi_beam.Base.Results.{Result}
use mochi_beam.Text.Chars.{Text, codes}
use mochi_beam.Etf.Term.{Term, Terms, done, more}
use mochi_beam.Typemap.Reasons.{SkipReason}

-- `MochiType`.
abbrev pub MochiType : Type 0
MochiType = Text

abbrev pub mochi_unit : MochiType
mochi_unit = codes "unit"

abbrev pub mochi_string : MochiType
mochi_string = codes "string"

-- `TranslateResult`: exactly one of its fields is set.
pub data TranslateResult : Type 0 where
  scalar : MochiType → TranslateResult
  result_t : MochiType → MochiType → TranslateResult
  list_t : MochiType → TranslateResult
  tuple_t : List MochiType → TranslateResult
  fn_t : List MochiType → MochiType → TranslateResult

-- The members after the first one, each after a comma.
unfoldable pub more_text : List MochiType → Text
more_text [] = []
more_text (t ∷ ts) = codes ", " ++ t ++ more_text ts

unfoldable pub joined : List MochiType → Text
joined [] = []
joined (t ∷ ts) = t ++ more_text ts

-- `TranslateResult.String`.
unfoldable pub result_text : TranslateResult → Text
result_text (scalar t) = t
result_text (result_t t e) = codes "result<" ++ t ++ codes ", " ++ e ++ codes ">"
result_text (list_t t) = codes "[]" ++ t
result_text (tuple_t ts) = codes "tuple[" ++ joined ts ++ codes "]"
result_text (fn_t ts t) = codes "fn(" ++ joined ts ++ codes ") " ++ t

-- What is wrong with a term that is no type.
pub data Malformed : Type 0 where
  unhandled tag_not_atom name_not_atom : Term → Malformed
  empty_tuple bad_ann_type too_short empty_union : Malformed
  unknown_tag : Text → Malformed

-- An error: a skip, the depth limit wrapped as a `BridgeError`, or a malformed term. The detail of a
-- skip is words, the number of branches of a union, or the error of an argument or a result.
-- `unfinished` is no error of the code: it stands for a run that the fuel cuts off.
mutual
  pub data TypeError : Type 0 where
    skip : SkipReason → Detail → TypeError
    too_deep : TypeError
    malformed : Malformed → TypeError
    unfinished : TypeError

  pub data Detail : Type 0 where
    words : Text → Detail
    branches : ℕ → Detail
    of_argument of_return : TypeError → Detail

abbrev pub Translated : Type 0 → Type 0
Translated A = Result {0, 0} TypeError A

-- Terms as a slice.
unfoldable pub terms_length : Terms → ℕ
terms_length done = 0
terms_length (more t ts) = suc (terms_length ts)
