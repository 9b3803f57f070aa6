-- ===== src/Typemap/Finish.antt =====
-- typemap/typemap.go: the translation ends, within the size of the term.
use mochi_beam.Base.{ℕ, zero, suc, ◌≤◌, ◌≢◌, not, arith, ltb}
use mochi_beam.Base.Results.{err}
use mochi_beam.Text.Chars.{Text, codes, text_eq}
use mochi_beam.Etf.Term.{Term, Terms, done, more, tuple, list, atom}
use mochi_beam.Etf.Term as Term
use mochi_beam.Typemap.Types as Types
use mochi_beam.Typemap.Types.{
  MochiType, TranslateResult, TypeError, Translated, unfinished, Detail, Malformed, terms_length,
}
use mochi_beam.Typemap.Reasons.{skip_untyped_fun, skip_any_term, skip_remote_type}
use mochi_beam.Typemap.Translate.{
  Go, atom_or_empty, Builtin, simple, left_out, tuple_type, map_type, fun_type, union_type,
  list_type, term_at, list_or_empty, map_skip, each_text, typed_elems, match_ok_tuple, two_branches,
  translate_union, fun_of, translate_fun, translate_builtin, builtin_named, builtin_of,
  translate_builtin_type, annotated, atom_type, translate_tagged, translate_tuple, translate_term,
  translate_type,
}
use mochi_beam.Typemap.Sizes.{
  size, sizes, Ends, Ends-ok, Ends-skip, Ends-malformed, Ends->>=, Ends-if, Within, sizes-term_at,
  each_text-Ends, map_skip-Ends, match_ok_elems-Ends, option_sizes-typed_elems, choose-Ends,
}

two_branches-Ends :
    (n : ℕ) (go : Go) (a b : Term.Term)
    → Within n go
    → size a ≤ n
    → size b ≤ n
    → Ends (two_branches go a b)
unfolding two_branches match_ok_tuple
two_branches-Ends n go a b w ha hb =
    let ka = option_sizes-typed_elems a in
    let kb = option_sizes-typed_elems b in
    choose-Ends _ _ _ _ (match_ok_elems-Ends n go (typed_elems a) w (omega arith))
      (match_ok_elems-Ends n go (typed_elems b) w (omega arith))

module _ (n : ℕ) (next first : Go) (w : Within n next) (v : Within n first) where
  translate_union-Ends : (ts : Terms) → sizes ts ≤ n → Ends (translate_union next first ts)
  unfolding translate_union
  translate_union-Ends done b = λ h. cc
  translate_union-Ends (more t done) b = w t (omega arith)
  translate_union-Ends (more a (more c done)) b =
      two_branches-Ends n first a c v (omega arith) (omega arith)
  translate_union-Ends (more a (more c (more d ts))) b = λ h. cc

  fun_of-Ends :
      (product : Terms) (ret : Term.Term)
      → sizes product ≤ n
      → size ret ≤ n
      → Ends (fun_of next product ret)
  unfolding fun_of
  fun_of-Ends product ret b c =
      let h = sizes-term_at product 3 in
      Ends-if (ltb (terms_length product) 4) _ _
        (Ends-skip skip_untyped_fun (Types.words (codes "fun() (no product type)")))
        (Ends-if (not (text_eq (atom_or_empty (term_at product 2)) (codes "product"))) _ _
          (Ends-skip skip_untyped_fun (Types.words (codes "fun() (unexpected product shape)")))
          (Ends->>=
            (map_skip Types.of_argument (each_text next (list_or_empty (term_at product 3)))) _
            (map_skip-Ends Types.of_argument _
              (each_text-Ends n next (list_or_empty (term_at product 3)) w (omega arith)))
            (λ args.
              Ends->>= (map_skip Types.of_return (next ret)) _
                (map_skip-Ends Types.of_return (next ret) (w ret c))
                (λ r. Ends-ok (Types.fn_t args _)))))

  translate_fun-Ends : (ts : Terms) → sizes ts ≤ n → Ends (translate_fun next ts)
  unfolding translate_fun
  translate_fun-Ends done b = λ k. cc
  translate_fun-Ends (more a done) b = λ k. cc
  translate_fun-Ends (more (tuple product) (more ret ts)) b =
      fun_of-Ends product ret (omega arith) (omega arith)
  translate_fun-Ends (more a (more ret ts)) b = λ k. cc

  translate_builtin-Ends :
      (x : Builtin) (ts : Terms) → sizes ts ≤ n → Ends (translate_builtin next first x ts)
  unfolding translate_builtin
  translate_builtin-Ends (simple r) ts b = λ k. cc
  translate_builtin-Ends (left_out r d) ts b = λ k. cc
  translate_builtin-Ends tuple_type done b = λ k. cc
  translate_builtin-Ends tuple_type (more t ts) b =
      Ends->>= (each_text next (more t ts)) _ (each_text-Ends n next (more t ts) w b)
        (λ rs. Ends-ok (Types.tuple_t rs))
  translate_builtin-Ends map_type done b = λ k. cc
  translate_builtin-Ends map_type (more t ts) b = λ k. cc
  translate_builtin-Ends fun_type ts b = translate_fun-Ends ts b
  translate_builtin-Ends union_type ts b = translate_union-Ends ts b
  translate_builtin-Ends (list_type d) done b = λ k. cc
  translate_builtin-Ends (list_type d) (more t ts) b =
      Ends->>= (next t) _ (w t (omega arith)) (λ r. Ends-ok (Types.list_t (Types.result_text r)))

  builtin_named-Ends :
      (t : Term.Term) (ts : Terms) → sizes ts ≤ n → Ends (builtin_named next first t ts)
  unfolding builtin_named
  builtin_named-Ends (atom a) ts b = translate_builtin-Ends (builtin_of a) ts b
  builtin_named-Ends _ ts b = λ k. cc

  annotated-Ends : (t : Term.Term) → sizes (list_or_empty t) ≤ n → Ends (annotated next t)
  unfolding annotated
  annotated-Ends (list (more a (more t ts))) b = w t (omega arith)
  annotated-Ends _ b = λ k. cc

  atom_type-Ends : (t : Term.Term) → 1 ≤ n → Ends (atom_type next t)
  unfolding atom_type
  atom_type-Ends (atom a) b = w (atom a) b
  atom_type-Ends _ b = λ k. cc

  translate_tagged-Ends :
      (tag : Text) (ts : Terms) → sizes ts ≤ n → 1 ≤ n → Ends (translate_tagged next first tag ts)
  unfolding translate_tagged translate_builtin_type
  translate_tagged-Ends tag ts b p =
      let three = sizes-term_at ts 3 in
      let two = sizes-term_at ts 2 in
      let is = λ (w : Text). text_eq tag w in
      Ends-if (is (codes "type")) _ _
        (Ends-if (ltb (terms_length ts) 3) _ _ (Ends-malformed Types.too_short)
          (builtin_named-Ends (term_at ts 2) (list_or_empty (term_at ts 3)) (omega arith)))
        (Ends-if (is (codes "ann_type")) _ _ (annotated-Ends (term_at ts 2) (omega arith)) (
          Ends-if (is (codes "atom")) _ _ (atom_type-Ends (term_at ts 2) p) (
            Ends-if (is (codes "integer")) _ _ (Ends-ok (Types.scalar (codes "int"))) (
              Ends-if (is (codes "var")) _ _
                (Ends-skip skip_any_term (Types.words (codes "type variable")))
                (Ends-if (is (codes "remote_type")) _ _
                  (Ends-skip skip_remote_type (Types.words (codes "remote type reference")))
                  (Ends-if (is (codes "user_type")) _ _
                    (Ends-skip skip_remote_type
                      (Types.words (codes "user type alias (not expanded)")))
                    (Ends-malformed (Types.unknown_tag tag))))))))

  translate_tuple-Ends : (ts : Terms) → sizes ts ≤ n → Ends (translate_tuple next first ts)
  unfolding translate_tuple
  translate_tuple-Ends done b = λ k. cc
  translate_tuple-Ends (more (atom tag) ts) b =
      translate_tagged-Ends tag (more (atom tag) ts) b (omega arith)
  translate_tuple-Ends (more _ ts) b = λ k. cc

translate_term-Ends :
    (n : ℕ) (next first : Go) (t : Term.Term)
    → Within n next
    → Within n first
    → size t ≤ suc n
    → Ends (translate_term next first t)
unfolding translate_term
translate_term-Ends n next first (tuple ts) w v b =
    translate_tuple-Ends n next first w v ts (omega arith)
translate_term-Ends n next first (atom a) w v b = λ k. cc
translate_term-Ends n next first (list done) w v b = λ k. cc
translate_term-Ends n next first _ w v b = λ k. cc

size-ne-zero : (t : Term.Term) → ¬ (size t ≤ 0)
size-ne-zero (tuple ts) h = omega arith
size-ne-zero (list ts) h = omega arith
size-ne-zero _ h = omega arith

-- The translation ends, although the depth begins again at 1 in a result type: with a fuel of at
-- least the number of terms in the term, no depth and no term make it run out.
pub translate_type-ne-unfinished :
    (n depth : ℕ) (t : Term.Term) → size t ≤ n → translate_type n depth t ≢ err unfinished
unfolding translate_type
translate_type-ne-unfinished zero depth t b = absurd (size-ne-zero t b)
translate_type-ne-unfinished (suc n) depth t b =
    Ends-if (ltb 16 depth) _ _ (λ k. cc)
      (translate_term-Ends n _ _ t (λ u h. translate_type-ne-unfinished n (suc depth) u h)
        (λ u h. translate_type-ne-unfinished n 1 u h) b)
