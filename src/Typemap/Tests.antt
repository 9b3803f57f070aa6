-- ===== src/Typemap/Tests.antt =====
-- Runs of typemap and errors, and instances of the theorems.
use mochi_beam.Base.{ℕ, zero, suc, ◌≡◌, ◌≢◌, refl, Bool, true, false, arith}
use mochi_beam.Base.Int.{pos}
use mochi_beam.Base.Results.{ok, err}
use mochi_beam.Text.Chars.{Text, codes, text_eq}
use mochi_beam.Text.Decimal.{decimal_ℤ, decimal, decimal_from}
use mochi_beam.Etf.Term.{Term, Terms, done, more, tuple, list, atom, int64}
use mochi_beam.Etf.Term as Term
use mochi_beam.Typemap.Reasons.{SkipReport, skip_iodata, report_text, place, reason_text}
use mochi_beam.Typemap.Types.{Translated, TranslateResult, unfinished, too_deep, terms_length}
use mochi_beam.Typemap.Translate.{
  translate_type, translate_term, translate_tuple, translate_tagged, translate_builtin_type,
  builtin_named, builtin_of, translate_builtin, term_at, translate_union, two_branches,
  match_ok_tuple, match_ok_elems, typed_elems, match_error_tuple, match_error_elems,
  is_atom_literal, is_atom_in, choose, second_match,
}
use mochi_beam.Typemap.Finish.{translate_type-ne-unfinished}
use mochi_beam.Typemap.Unions.{union_term, translate_type-union_term}

abbrev at_line : Term.Term
at_line = int64 (pos 1)

abbrev builtin : Text → Terms → Term.Term
builtin n args =
    tuple (more (atom (codes "type")) (more at_line (more (atom n) (more (list args) done))))

abbrev pair_of : Text → Term.Term → Term.Term
pair_of n t =
    builtin (codes "tuple")
      (more (tuple (more (atom (codes "atom")) (more at_line (more (atom n) done)))) (more t done))

abbrev ok_or_error : Term.Term → Term.Term
ok_or_error t =
    union_term at_line (pair_of (codes "ok") t) (pair_of (codes "error") (atom (codes "e")))

-- Result types inside one another, to a depth.
abbrev nested : ℕ → Term.Term
nested zero = builtin (codes "integer") done
nested (suc n) = ok_or_error (nested n)

-- Lists inside one another.
abbrev lists : ℕ → Term.Term
lists zero = builtin (codes "integer") done
lists (suc n) = builtin (codes "list") (more (lists n) done)

abbrev is_ok : Translated TranslateResult → Bool
is_ok (ok r) = true
is_ok (err e) = false

translate_type-ne-unfinished_example : translate_type 60 0 (nested 1) ≢ err unfinished
translate_type-ne-unfinished_example = translate_type-ne-unfinished 60 0 (nested 1) (omega arith)

translate_type-union_term_example :
    translate_type 9 0 (
      union_term at_line
        (pair_of (codes "ok") (nested 0))
        (pair_of (codes "error") (atom (codes "e"))))
    ≡ translate_type 9 0 (
        union_term at_line
          (pair_of (codes "error") (atom (codes "e")))
          (pair_of (codes "ok") (nested 0)))
translate_type-union_term_example =
    translate_type-union_term 9 0 at_line (pair_of (codes "ok") (nested 0))
      (pair_of (codes "error") (atom (codes "e")))

-- The limit on the depth stops lists, and lets result types through.
lists_too_deep : translate_type 40 0 (lists 17) ≡ err too_deep
unfolding translate_type translate_term translate_tuple translate_tagged translate_builtin_type
    builtin_named builtin_of translate_builtin term_at terms_length text_eq
lists_too_deep = refl

nested_accepted : is_ok (translate_type 100 0 (nested 20)) ≡ true
unfolding translate_type translate_term translate_tuple translate_tagged translate_builtin_type
    builtin_named builtin_of translate_builtin term_at terms_length text_eq translate_union
    two_branches match_ok_tuple match_ok_elems typed_elems match_error_tuple match_error_elems
    is_atom_literal is_atom_in choose second_match
nested_accepted = refl

abbrev report : SkipReport
report = record {
  module_name = codes "m";
  function_name = codes "f";
  arity = pos 2;
  at_position = codes "arg1";
  reason = skip_iodata;
  detail = codes "iodata()";
}

report_printed :
    report_text report ≡ codes "SKIPPED: m:f/2@arg1\n  Reason: SkipIodata\n  Detail: iodata()\n"
unfolding report_text place reason_text decimal_ℤ decimal decimal_from
report_printed = refl
