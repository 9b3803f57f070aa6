-- ===== src/Typemap/Unions.antt =====
-- typemap/typemap.go: unions of two branches.
use mochi_beam.Base.{
  ℕ, zero, suc, ◌≡◌, refl, sym, ap, ◌∙◌, subst, Bool, true, false, Option, some, none, Bool-cases,
  inl, inr, arith, if◌then◌else◌, ltb,
}
use mochi_beam.Base.Results.{ok, err}
use mochi_beam.Text.Chars.{Text, codes, text_eq, text_eq→eq}
use mochi_beam.Etf.Term.{Term, Terms, done, more, tuple, list, atom}
use mochi_beam.Etf.Term as Term
use mochi_beam.Typemap.Types.{
  TranslateResult, TypeError, Translated, unfinished, too_deep, terms_length,
}
use mochi_beam.Typemap.Translate.{
  Go, second_match, choose, two_branches, match_ok_tuple, match_error_tuple, match_ok_elems,
  match_error_elems, typed_elems, is_atom_literal, is_atom_in, atom_or_empty, term_at, or_nothing,
  translate_union, translate_type, translate_term, translate_tuple, translate_tagged,
  translate_builtin_type, builtin_named, builtin_of, translate_builtin, max_depth,
}

-- What the two matches say of one term: it is not both, and a failure is the end of the fuel.
Matches : Translated (Option TranslateResult) → Bool → Type 0
Matches x e = (e ≡ true → x ≡ ok none) × ((f : TypeError) → x ≡ err f → f ≡ unfinished)

choose_comm :
    (x y : Translated (Option TranslateResult)) (a b : Bool)
    → Matches x a
    → Matches y b
    → choose x y a b ≡ choose y x b a
unfolding choose second_match Matches
choose_comm (err e) (err f) a b h k = ap err (h.1 e refl ∙ sym (k.1 f refl))
choose_comm (err e) (ok none) a b h k = refl
choose_comm (err e) (ok (some s)) true b h k = let q = h.0 refl in cc
choose_comm (err e) (ok (some s)) false b h k = refl
choose_comm (ok none) (err f) a b h k = refl
choose_comm (ok (some r)) (err f) a true h k = let q = k.0 refl in cc
choose_comm (ok (some r)) (err f) a false h k = refl
choose_comm (ok none) (ok none) a b h k = refl
choose_comm (ok none) (ok (some s)) true b h k = refl
choose_comm (ok none) (ok (some s)) false b h k = refl
choose_comm (ok (some r)) (ok none) a true h k = refl
choose_comm (ok (some r)) (ok none) a false h k = refl
choose_comm (ok (some r)) (ok (some s)) true b h k = let q = h.0 refl in cc
choose_comm (ok (some r)) (ok (some s)) false true h k = let q = k.0 refl in cc
choose_comm (ok (some r)) (ok (some s)) false false h k = refl

-- No word is both `error` and `ok`.
error-ok : (t : Text) → text_eq t (codes "error") ≡ true → text_eq t (codes "ok") ≡ false
error-ok t h =
    let q : text_eq (codes "error") (codes "ok") ≡ false = unfold text_eq in refl in
    subst (λ z. text_eq z (codes "ok") ≡ false) (sym (text_eq→eq t (codes "error") h)) q

literals-apart :
    (t : Term.Term)
    → is_atom_literal t (codes "error") ≡ true
    → is_atom_literal t (codes "ok") ≡ false
unfolding is_atom_literal is_atom_in
literals-apart (tuple ts) h =
    let last : text_eq (atom_or_empty (term_at ts 2)) (codes "error") ≡ true = ground arith in
    let q = error-ok (atom_or_empty (term_at ts 2)) last in ground arith
literals-apart (atom a) h = error-ok a h
literals-apart _ h = cc

or_nothing-unfinished :
    (x : Translated TranslateResult) (f : TypeError) → or_nothing x ≡ err f → f ≡ unfinished
or_nothing-unfinished (ok r) f h = cc
or_nothing-unfinished (err unfinished) f h = let q : unfinished ≡ f = cc in sym q
or_nothing-unfinished (err (TypeError.skip r d)) f h = cc
or_nothing-unfinished (err TypeError.too_deep) f h = cc
or_nothing-unfinished (err (TypeError.malformed m)) f h = cc

elems-Matches :
    (go : Go) (es : Option Terms) → Matches (match_ok_elems go es) (match_error_elems es)
unfolding Matches match_ok_elems match_error_elems
elems-Matches go none = (λ h. refl, λ f h. cc)
elems-Matches go (some done) = (λ h. refl, λ f h. cc)
elems-Matches go (some (more e done)) = (λ h. refl, λ f h. cc)
elems-Matches go (some (more e (more t done))) =
    elim (Bool-cases (is_atom_literal e (codes "ok"))) [
      | inl k ↦ (
        λ h. let q = literals-apart e h in cc,
        λ f h.
            or_nothing-unfinished (go t) f
              (ap (λ z. if z then or_nothing (go t) else ok none) (sym k) ∙ h),
      )
      | inr k ↦
          let q : (if is_atom_literal e (codes "ok") then or_nothing (go t) else ok none)
              ≡ ok none =
            rw (k) in
          (λ h. q, λ f h. cc)
    ]
elems-Matches go (some (more e (more t (more u ts)))) = (λ h. refl, λ f h. cc)

-- A union of two branches means the same in either order: both orders give the same result type or
-- the same error.
pub translate_union_comm :
    (next first : Go) (a b : Term.Term)
    → translate_union next first (more a (more b done))
      ≡ translate_union next first (more b (more a done))
unfolding translate_union two_branches match_ok_tuple match_error_tuple
translate_union_comm next first a b =
    choose_comm _ _ _ _ (elems-Matches first (typed_elems a)) (elems-Matches first (typed_elems b))

-- `{type, Line, union, [A, B]}`.
abbrev pub union_term : Term.Term → Term.Term → Term.Term → Term.Term
union_term line a b = tuple (
    more (atom (codes "type"))
      (more line (more (atom (codes "union")) (more (list (more a (more b done))) done))))

-- The order of the branches of a union of two types does not matter: at every depth, and whatever the
-- branches are, both orders are translated to the same type, or give the same error.
pub translate_type-union_term :
    (n depth : ℕ) (line a b : Term.Term)
    → translate_type n depth (union_term line a b) ≡ translate_type n depth (union_term line b a)
unfolding translate_type translate_term translate_tuple translate_tagged translate_builtin_type
    builtin_named builtin_of translate_builtin text_eq terms_length term_at
translate_type-union_term zero depth line a b = refl
translate_type-union_term (suc n) depth line a b =
    ap (λ z. if ltb max_depth depth then err too_deep else z)
      (translate_union_comm (translate_type n (suc depth)) (translate_type n 1) a b)
