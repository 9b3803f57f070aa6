-- ===== src/Types/Transitive.antt =====
-- internal/types/subtype.go: `Subtype` is transitive where a union's name fixes its variants.
use mochi_beam.Base.{
  ◌≡◌, refl, ap, sym, subst, ◌∙◌, Bool, true, false, [], ◌∷◌, ◌&&◌, ◌||◌, not, if◌then◌else◌, ◌⊎◌,
  inl, inr,
}
use mochi_beam.Text.Chars.{Text, text_eq, text_eq→eq}
use mochi_beam.Types.Kinds.{
  Plain, Wrap, Ty, Tys, Opt, Fields, Variants, plain, wrap, pair, struct, union, func, var, none,
  more, nil, given, same_plain, same_plain→eq, any, int, int64, big_int, big_rat, float,
}
use mochi_beam.Types.Equal.{equal_kinds, equal_fields, by_name, is_named, is_future}
use mochi_beam.Types.Subtype.{
  is_any, subtype, flows, at_top, widens, is_covariant, same_name, has_variant,
}
use mochi_beam.Types.Equivalence.{equal_kinds_trans, text_eq_trans}
use mochi_beam.Types.Contra.{subtype-func, all_below, opt_below}
use mochi_beam.Types.Inverse.{
  or_cases, or_right, and_both, and_intro, and_three_intro, subtype-equal, below_any, above_any,
  is_plain, plain_above, elements, wrap-inverse, wrap_intro, pair-inverse, func-inverse,
}

-- Every union in the type, outside of fields and of pairs, has the variants that are declared for
-- its name.
abbrev mutual
  pub IsDeclared : (Text → Variants) → Ty → Type 0
  IsDeclared decl (wrap k a) = IsDeclared decl a
  IsDeclared decl (union n vs) = vs ≡ decl n
  IsDeclared decl (func ps v r e q) =
      AreDeclared decl ps × OptIsDeclared decl v × OptIsDeclared decl r
  IsDeclared decl (plain a) = Unit
  IsDeclared decl (pair k a b) = Unit
  IsDeclared decl (struct n fs) = Unit
  IsDeclared decl (var n) = Unit

  pub AreDeclared : (Text → Variants) → Tys → Type 0
  AreDeclared decl none = Unit
  AreDeclared decl (more a xs) = IsDeclared decl a × AreDeclared decl xs

  pub OptIsDeclared : (Text → Variants) → Opt → Type 0
  OptIsDeclared decl nil = Unit
  OptIsDeclared decl (given a) = IsDeclared decl a

widens_trans : (a b c : Plain) → widens a b ≡ true → widens b c ≡ true → widens a c ≡ true
widens_trans int int64 big_int h k = refl
widens_trans int int64 big_rat h k = refl
widens_trans int big_int big_rat h k = refl
widens_trans int64 big_int big_rat h k = refl
widens_trans int int64 c h k = cc
widens_trans int big_int c h k = cc
widens_trans int big_rat c h k = cc
widens_trans int64 big_int c h k = cc
widens_trans int64 big_rat c h k = cc
widens_trans big_int big_rat c h k = cc
widens_trans float big_rat c h k = cc
widens_trans a b c h k = cc

-- The three reasons for which a plain type is below another.
plain_cases :
    (a b : Plain)
    → subtype (plain a) (plain b) ≡ true
    → (a ≡ b) ⊎ ((is_any (plain b) ≡ true) ⊎ (widens a b ≡ true))
unfolding subtype flows equal_kinds
plain_cases a b h = elim (or_cases (at_top (plain a) (plain b)) (widens a b) h) [
  | inl t ↦ elim (or_cases (same_plain a b) (is_any (plain b)) t) [
    | inl e ↦ inl (same_plain→eq a b e)
    | inr n ↦ inr (inl n)
  ]
  | inr w ↦ inr (inr w)
]

widens-subtype : (a b : Plain) → widens a b ≡ true → subtype (plain a) (plain b) ≡ true
unfolding subtype flows
widens-subtype a b h = or_right (at_top (plain a) (plain b)) (widens a b) h

any_plain : (b : Plain) → is_any (plain b) ≡ true → b ≡ any
any_plain any h = refl
any_plain b h = cc

plain_trans :
    (a b c : Plain)
    → subtype (plain a) (plain b) ≡ true
    → subtype (plain b) (plain c) ≡ true
    → subtype (plain a) (plain c) ≡ true
plain_trans a b c h k = elim (plain_cases a b h) [
  | inl e ↦ subst (λ x. subtype (plain x) (plain c) ≡ true) (sym e) k
  | inr f ↦ elim f [
    | inl n ↦
        below_any (plain a) (plain c)
          (above_any (plain c) (subst (λ x. subtype (plain x) (plain c) ≡ true) (any_plain b n) k))
    | inr w ↦ elim (plain_cases b c k) [
      | inl e ↦ subst (λ x. subtype (plain a) (plain x) ≡ true) e h
      | inr g ↦ elim g [
        | inl n ↦ below_any (plain a) (plain c) n
        | inr w' ↦ widens-subtype a c (widens_trans a b c w w')
      ]
    ]
  ]
]

chosen_trans :
    (c f : Bool) (w1 w2 w3 e1 e2 e3 : Bool)
    → (w1 ≡ true → w2 ≡ true → w3 ≡ true)
    → (e1 ≡ true → e2 ≡ true → e3 ≡ true)
    → (if c then w1 else not f && e1) ≡ true
    → (if c then w2 else not f && e2) ≡ true
    → (if c then w3 else not f && e3) ≡ true
chosen_trans true f w1 w2 w3 e1 e2 e3 g g' h k = g h k
chosen_trans false true w1 w2 w3 e1 e2 e3 g g' h k = cc
chosen_trans false false w1 w2 w3 e1 e2 e3 g g' h k = g' h k

wrap_trans :
    (x y z : Wrap) (a b c : Ty)
    → (subtype a b ≡ true → subtype b c ≡ true → subtype a c ≡ true)
    → subtype (wrap x a) (wrap y b) ≡ true
    → subtype (wrap y b) (wrap z c) ≡ true
    → subtype (wrap x a) (wrap z c) ≡ true
wrap_trans x y z a b c g h k =
    let (xy, ab) = wrap-inverse x y a b h in
    let (yz, bc) = wrap-inverse y z b c k in
    let bc' : elements x b c ≡ true = subst (λ w. elements w b c ≡ true) (sym xy) bc in
    let ac : elements x a c ≡ true =
      chosen_trans (is_covariant x) (is_future x) (subtype a b) (subtype b c) (subtype a c)
        (equal_kinds a b) (equal_kinds b c) (equal_kinds a c) g (equal_kinds_trans a b c) ab bc' in
    subst (λ w. subtype (wrap x a) (wrap w c) ≡ true) (xy ∙ yz) (wrap_intro x a c ac)

by_name_named :
    (n m : Text) (x : Bool) → is_named n ≡ true → text_eq n m ≡ true → by_name n m x ≡ true
by_name_named [] m x h k = cc
by_name_named (c ∷ n) m x h k = k

by_name→text_eq : (n m : Text) (x : Bool) → by_name n m x ≡ true → text_eq n m ≡ true
unfolding text_eq
by_name→text_eq [] [] x h = refl
by_name→text_eq [] (c ∷ m) x h = h
by_name→text_eq (c ∷ n) m x h = h

struct-inverse :
    (n m : Text) (fs gs : Fields)
    → subtype (struct n fs) (struct m gs) ≡ true
    → equal_kinds (struct n fs) (struct m gs) ≡ true
unfolding subtype flows equal_kinds
struct-inverse n m fs gs h =
    elim (or_cases (by_name n m (equal_fields fs gs) || false) (same_name n m) h) [
      | inl t ↦ elim (or_cases (by_name n m (equal_fields fs gs)) false t) [
        | inl e ↦ e
        | inr f ↦ cc
      ]
      | inr s ↦
          let (x, y) = and_both (is_named n) (text_eq n m) s in
          by_name_named n m (equal_fields fs gs) x y
    ]

union-inverse :
    (n m : Text) (vs ws : Variants) → subtype (union n vs) (union m ws) ≡ true → text_eq n m ≡ true
unfolding subtype flows equal_kinds
union-inverse n m vs ws h = elim (or_cases (text_eq n m || false) (same_name n m) h) [
  | inl t ↦ elim (or_cases (text_eq n m) false t) [ inl e ↦ e | inr f ↦ cc ]
  | inr s ↦ (and_both (is_named n) (text_eq n m) s).1
]

-- A struct that is below a union is below every struct of its name and in every union of that name.
variant-struct :
    (n m p : Text) (fs gs : Fields) (ws : Variants)
    → subtype (struct n fs) (struct m gs) ≡ true
    → subtype (struct m gs) (union p ws) ≡ true
    → subtype (struct n fs) (union p ws) ≡ true
unfolding subtype flows equal_kinds
variant-struct n m p fs gs ws h k =
    let e =
      text_eq→eq n m (by_name→text_eq n m (equal_fields fs gs) (struct-inverse n m fs gs h)) in
    subst (λ x. has_variant x ws ≡ true) (sym e) k

variant-union :
    (decl : Text → Variants) (n m p : Text) (fs : Fields) (vs ws : Variants)
    → vs ≡ decl m
    → ws ≡ decl p
    → subtype (struct n fs) (union m vs) ≡ true
    → subtype (union m vs) (union p ws) ≡ true
    → subtype (struct n fs) (union p ws) ≡ true
unfolding subtype flows equal_kinds
variant-union decl n m p fs vs ws dv dw h k =
    let e = text_eq→eq m p (union-inverse m p vs ws k) in
    subst (λ x. has_variant n x ≡ true) (dv ∙ (ap decl e ∙ sym dw)) h

via_plain :
    (r : Ty) (b : Plain) (t : Ty)
    → is_plain r ≡ false
    → subtype r (plain b) ≡ true
    → subtype (plain b) t ≡ true
    → subtype r t ≡ true
via_plain r b t n h k =
    below_any r t
      (above_any t (subst (λ x. subtype (plain x) t ≡ true) (any_plain b (plain_above r b n h)) k))

onto_plain :
    (s r : Ty) (c : Plain)
    → is_plain s ≡ false
    → subtype s (plain c) ≡ true
    → subtype r (plain c) ≡ true
onto_plain s r c n k = below_any r (plain c) (plain_above s c n k)

var-inverse : (n m : Text) → subtype (var n) (var m) ≡ true → text_eq n m ≡ true
unfolding subtype flows equal_kinds
var-inverse n m h = elim (or_cases (text_eq n m || false) false h) [
  | inl t ↦ elim (or_cases (text_eq n m) false t) [ inl e ↦ e | inr f ↦ cc ]
  | inr f ↦ cc
]

mutual
  unfolding subtype flows equal_kinds

  subtype_trans :
      (decl : Text → Variants) (s r t : Ty)
      → IsDeclared decl s
      → IsDeclared decl r
      → IsDeclared decl t
      → subtype r s ≡ true
      → subtype s t ≡ true
      → subtype r t ≡ true
  subtype_trans decl (plain b) (plain a) (plain c) ds dr dt h k = plain_trans a b c h k
  subtype_trans decl (plain b) (plain a) t ds dr dt h k = cc
  subtype_trans decl (plain b) r t ds dr dt h k = via_plain r b t refl h k
  subtype_trans decl s r (plain c) ds dr dt h k = onto_plain s r c refl k
  subtype_trans decl (wrap y b) (wrap x a) (wrap z c) ds dr dt h k =
      wrap_trans x y z a b c (subtype_trans decl b a c ds dr dt) h k
  subtype_trans decl (pair y b1 b2) (pair x a1 a2) (pair z c1 c2) ds dr dt h k =
      subtype-equal (pair x a1 a2) (pair z c1 c2) (
        equal_kinds_trans (pair x a1 a2) (pair y b1 b2) (pair z c1 c2)
          (pair-inverse x y a1 a2 b1 b2 h) (pair-inverse y z b1 b2 c1 c2 k))
  subtype_trans decl (struct m gs) (struct n fs) (struct p hs) ds dr dt h k =
      subtype-equal (struct n fs) (struct p hs) (
        equal_kinds_trans (struct n fs) (struct m gs) (struct p hs) (struct-inverse n m fs gs h)
          (struct-inverse m p gs hs k))
  subtype_trans decl (struct m gs) (struct n fs) (union p ws) ds dr dt h k =
      variant-struct n m p fs gs ws h k
  subtype_trans decl (union m vs) (struct n fs) (union p ws) ds dr dt h k =
      variant-union decl n m p fs vs ws ds dt h k
  subtype_trans decl (union m vs) (union n us) (union p ws) ds dr dt h k =
      subtype-equal (union n us) (union p ws)
        (text_eq_trans n m p (union-inverse n m us vs h) (union-inverse m p vs ws k))
  subtype_trans decl (var m) (var n) (var p) ds dr dt h k =
      subtype-equal (var n) (var p) (text_eq_trans n m p (var-inverse n m h) (var-inverse m p k))
  subtype_trans decl (func ps' v' r' e' q') (func ps v r e q) (func qs w u e'' q'') ds dr dt h k =
      let (h1, h2, h3) = func-inverse ps ps' v v' r r' e e' q q' h in
      let (k1, k2, k3) = func-inverse ps' qs v' w r' u e' e'' q' q'' k in
      let all = all_below_trans decl ps' qs ps ds.0 dt.0 dr.0 k1 h1 in
      let opt = opt_below_trans decl v' w v ds.1 dt.1 dr.1 k2 h2 in
      let res = opt_below_trans decl r' r u ds.2 dr.2 dt.2 h3 k3 in
      subtype-func ps qs v w r u e e'' q q''
      ∙ or_right _ (all_below qs ps && opt_below w v && opt_below r u)
          (and_three_intro (all_below qs ps) (opt_below w v) (opt_below r u) all opt res)
  subtype_trans decl _ _ _ ds dr dt h k = cc

  all_below_trans :
      (decl : Text → Variants) (s r t : Tys)
      → AreDeclared decl s
      → AreDeclared decl r
      → AreDeclared decl t
      → all_below r s ≡ true
      → all_below s t ≡ true
      → all_below r t ≡ true
  all_below_trans decl none none none ds dr dt h k = refl
  all_below_trans decl (more b ys) (more a xs) (more c zs) ds dr dt h k =
      let (h1, h2) = and_both (subtype a b) (all_below xs ys) h in
      let (k1, k2) = and_both (subtype b c) (all_below ys zs) k in
      and_intro (subtype a c) (all_below xs zs) (subtype_trans decl b a c ds.0 dr.0 dt.0 h1 k1)
        (all_below_trans decl ys xs zs ds.1 dr.1 dt.1 h2 k2)
  all_below_trans decl _ _ _ ds dr dt h k = cc

  opt_below_trans :
      (decl : Text → Variants) (s r t : Opt)
      → OptIsDeclared decl s
      → OptIsDeclared decl r
      → OptIsDeclared decl t
      → opt_below r s ≡ true
      → opt_below s t ≡ true
      → opt_below r t ≡ true
  opt_below_trans decl nil nil nil ds dr dt h k = refl
  opt_below_trans decl (given b) (given a) (given c) ds dr dt h k =
      subtype_trans decl b a c ds dr dt h k
  opt_below_trans decl _ _ _ ds dr dt h k = cc

-- `Subtype` is transitive on types in which every union, outside of the fields of structs and of the
-- keys and values of maps and groups, has the variants that are declared for its name.
pub subtype_transitive :
    (decl : Text → Variants) (r s t : Ty)
    → IsDeclared decl r
    → IsDeclared decl s
    → IsDeclared decl t
    → subtype r s ≡ true
    → subtype s t ≡ true
    → subtype r t ≡ true
subtype_transitive decl r s t dr ds dt h k = subtype_trans decl s r t ds dr dt h k
