-- ===== src/Typemap/Translate.antt =====
-- typemap/typemap.go: the translation.
use mochi_beam.Base.{
  ℕ, zero, suc, Bool, true, false, not, ◌&&◌, [], ◌∷◌, ltb, if◌then◌else◌, Option, some, none, List,
}
use mochi_beam.Base.Results.{ok, err, ◌>>=◌}
use mochi_beam.Text.Chars.{Text, codes, text_eq}
use mochi_beam.Etf.Term.{Term, Terms, done, more, tuple, list, atom}
use mochi_beam.Etf.Term as Term
use mochi_beam.Typemap.Reasons.{
  SkipReason, skip_any_term, skip_complex_union, skip_fun_arg_not_in_table, skip_non_ok_error_union,
  skip_remote_type, skip_typed_map, skip_untyped_fun, skip_untyped_map, skip_untyped_tuple,
}
use mochi_beam.Typemap.Types.{
  MochiType, mochi_unit, mochi_string, TranslateResult, scalar, result_t, list_t, tuple_t, fn_t,
  result_text, unhandled, tag_not_atom, name_not_atom, empty_tuple, bad_ann_type, too_short,
  empty_union, unknown_tag, TypeError, skip, too_deep, malformed, unfinished, Detail, words,
  branches, of_argument, of_return, Translated, terms_length,
}
unfoldable pub use mochi_beam.Typemap.Names.{term_at, builtin_of, translate_atom}
pub use mochi_beam.Typemap.Names.{
  atom_or_empty, list_or_empty, Builtin, simple, left_out, tuple_type, map_type, fun_type,
  union_type, list_type,
}

abbrev pub skipped : {A : Type 0} → SkipReason → Text → Translated A
skipped r d = err (skip r (words d))

-- The error of a member of a function type.
abbrev pub map_skip : {A : Type 0} → (TypeError → Detail) → Translated A → Translated A
map_skip f (ok a) = ok a
map_skip f (err unfinished) = err unfinished
map_skip f (err e) = err (skip skip_fun_arg_not_in_table (f e))

-- `translateType` at the next depth, for the functions below.
abbrev pub Go : Type 0
Go = Term.Term → Translated TranslateResult

-- The texts of the types of a slice.
unfoldable pub each_text : Go → Terms → Translated (List MochiType)
each_text go done = ok []
each_text go (more t ts) = go t >>= (λ r. each_text go ts >>= (λ rs. ok (result_text r ∷ rs)))

unfoldable pub is_atom_in : Terms → Text → Bool
is_atom_in ts want =
    not (ltb (terms_length ts) 3)
    && text_eq (atom_or_empty (term_at ts 0)) (codes "atom")
    && text_eq (atom_or_empty (term_at ts 2)) want

-- `isAtomLiteral`.
unfoldable pub is_atom_literal : Term.Term → Text → Bool
is_atom_literal (tuple ts) want = is_atom_in ts want
is_atom_literal (atom a) want = text_eq a want
is_atom_literal _ want = false

-- The elements of a term that is a tuple type with elements.
unfoldable pub typed_elems : Term.Term → Option Terms
typed_elems (tuple ts) =
    if not (ltb (terms_length ts) 4)
      && text_eq (atom_or_empty (term_at ts 0)) (codes "type")
      && text_eq (atom_or_empty (term_at ts 2)) (codes "tuple")
    then some (list_or_empty (term_at ts 3))
    else none
typed_elems _ = none

-- `matchErrorTuple`.
unfoldable pub match_error_elems : Option Terms → Bool
match_error_elems none = false
match_error_elems (some done) = false
match_error_elems (some (more e es)) = is_atom_literal e (codes "error")

unfoldable pub match_error_tuple : Term.Term → Bool
match_error_tuple t = match_error_elems (typed_elems t)

-- `matchOkTuple`: the type beside `ok`, unless its translation fails.
abbrev pub or_nothing : Translated TranslateResult → Translated (Option TranslateResult)
or_nothing (ok r) = ok (some r)
or_nothing (err unfinished) = err unfinished
or_nothing (err e) = ok none

unfoldable pub match_ok_elems : Go → Option Terms → Translated (Option TranslateResult)
match_ok_elems go (some (more e (more t done))) =
    if is_atom_literal e (codes "ok") then or_nothing (go t) else ok none
match_ok_elems go _ = ok none

unfoldable pub match_ok_tuple : Go → Term.Term → Translated (Option TranslateResult)
match_ok_tuple go t = match_ok_elems go (typed_elems t)

abbrev pub result_of : TranslateResult → Translated TranslateResult
result_of r = ok (result_t (result_text r) mochi_string)

abbrev pub no_match : Translated TranslateResult
no_match =
    skipped skip_non_ok_error_union (codes "2-branch union does not match {ok,T}|{error,Reason}")

-- The second of the two tests, and the end.
unfoldable pub second_match : Option TranslateResult → Bool → Translated TranslateResult
second_match (some r) true = result_of r
second_match _ _ = no_match

-- The two tests in turn, from what `matchOkTuple` and `matchErrorTuple` say of each branch.
unfoldable pub choose :
    Translated (Option TranslateResult)
    → Translated (Option TranslateResult)
    → Bool
    → Bool
    → Translated TranslateResult
choose (err e) y a_error b_error = err e
choose (ok none) y a_error b_error = y >>= (λ s. second_match s a_error)
choose (ok (some r)) y a_error true = result_of r
choose (ok (some r)) y a_error false = y >>= (λ s. second_match s a_error)

unfoldable pub two_branches : Go → Term.Term → Term.Term → Translated TranslateResult
two_branches go a b =
    choose (match_ok_tuple go a) (match_ok_tuple go b) (match_error_tuple a) (match_error_tuple b)

-- `translateUnion`; the depth of a result type begins again at 1.
unfoldable pub translate_union : Go → Go → Terms → Translated TranslateResult
translate_union next first done = err (malformed empty_union)
translate_union next first (more t done) = next t
translate_union next first (more a (more b done)) = two_branches first a b
translate_union next first (more a (more b (more c ts))) =
    err (skip skip_complex_union (branches (suc (suc (suc (terms_length ts))))))

-- `translateFun`.
unfoldable pub fun_of : Go → Terms → Term.Term → Translated TranslateResult
fun_of go product ret =
    if ltb (terms_length product) 4
    then skipped skip_untyped_fun (codes "fun() (no product type)")
    else if not (text_eq (atom_or_empty (term_at product 2)) (codes "product"))
    then skipped skip_untyped_fun (codes "fun() (unexpected product shape)")
    else map_skip of_argument (each_text go (list_or_empty (term_at product 3)))
      >>= (λ args. map_skip of_return (go ret) >>= (λ r. ok (fn_t args (result_text r))))

unfoldable pub translate_fun : Go → Terms → Translated TranslateResult
translate_fun go done = skipped skip_untyped_fun (codes "fun() (no type annotation)")
translate_fun go (more a done) = skipped skip_untyped_fun (codes "fun() (incomplete)")
translate_fun go (more (tuple product) (more ret ts)) = fun_of go product ret
translate_fun go (more a (more ret ts)) = skipped skip_untyped_fun (codes "fun() (no product type)")

unfoldable pub translate_builtin : Go → Go → Builtin → Terms → Translated TranslateResult
translate_builtin next first (simple r) args = ok r
translate_builtin next first (left_out r d) args = skipped r d
translate_builtin next first tuple_type done = skipped skip_untyped_tuple (codes "tuple()")
translate_builtin next first tuple_type args = each_text next args >>= (λ ts. ok (tuple_t ts))
translate_builtin next first map_type done = skipped skip_untyped_map (codes "map()")
translate_builtin next first map_type args = skipped skip_typed_map (codes "typed map #{...}")
translate_builtin next first fun_type args = translate_fun next args
translate_builtin next first union_type args = translate_union next first args
translate_builtin next first (list_type d) done = skipped skip_any_term d
translate_builtin next first (list_type d) (more t ts) =
    next t >>= (λ r. ok (list_t (result_text r)))

-- `translateBuiltinType`, with the name and the arguments that the tuple has.
unfoldable pub builtin_named : Go → Go → Term.Term → Terms → Translated TranslateResult
builtin_named next first (atom n) args = translate_builtin next first (builtin_of n) args
builtin_named next first t args = err (malformed (name_not_atom t))

unfoldable pub translate_builtin_type : Go → Go → Terms → Translated TranslateResult
translate_builtin_type next first ts =
    if ltb (terms_length ts) 3
    then err (malformed too_short)
    else builtin_named next first (term_at ts 2) (list_or_empty (term_at ts 3))

-- `{ann_type, Line, [Name, Type]}`.
unfoldable pub annotated : Go → Term.Term → Translated TranslateResult
annotated next (list (more a (more t ts))) = next t
annotated next _ = err (malformed bad_ann_type)

-- `{atom, Line, Value}`.
unfoldable pub atom_type : Go → Term.Term → Translated TranslateResult
atom_type next (atom a) = next (atom a)
atom_type next _ = ok (scalar mochi_string)

unfoldable pub translate_tagged : Go → Go → Text → Terms → Translated TranslateResult
translate_tagged next first tag ts =
    if text_eq tag (codes "type")
    then translate_builtin_type next first ts
    else if text_eq tag (codes "ann_type")
    then annotated next (term_at ts 2)
    else if text_eq tag (codes "atom")
    then atom_type next (term_at ts 2)
    else if text_eq tag (codes "integer")
    then ok (scalar (codes "int"))
    else if text_eq tag (codes "var")
    then skipped skip_any_term (codes "type variable")
    else if text_eq tag (codes "remote_type")
    then skipped skip_remote_type (codes "remote type reference")
    else if text_eq tag (codes "user_type")
    then skipped skip_remote_type (codes "user type alias (not expanded)")
    else err (malformed (unknown_tag tag))

-- `translateTuple`.
unfoldable pub translate_tuple : Go → Go → Terms → Translated TranslateResult
translate_tuple next first done = err (malformed empty_tuple)
translate_tuple next first (more (atom tag) ts) =
    translate_tagged next first tag (more (atom tag) ts)
translate_tuple next first (more t ts) = err (malformed (tag_not_atom t))

unfoldable pub translate_term : Go → Go → Term.Term → Translated TranslateResult
translate_term next first (tuple ts) = translate_tuple next first ts
translate_term next first (atom a) = ok (translate_atom a)
translate_term next first (list done) = ok (list_t mochi_unit)
translate_term next first t = err (malformed (unhandled t))

abbrev pub max_depth : ℕ
max_depth = 16

-- `translateType`. The fuel counts nested calls.
unfoldable pub translate_type : ℕ → ℕ → Term.Term → Translated TranslateResult
translate_type zero depth t = err unfinished
translate_type (suc fuel) depth t =
    let result = translate_term (translate_type fuel (suc depth)) (translate_type fuel 1) t in
    if ltb max_depth depth then err too_deep else result
