-- ===== src/Types/Contra.antt =====
-- internal/types/subtype.go: the two directions of `Subtype`, and the rule for functions.
use mochi_beam.Base.{
  ℕ, ◌≡◌, refl, ◌∙◌, Bool, true, false, List, ◌&&◌, ◌||◌, not, if◌then◌else◌, Bool-cases, inl, inr,
}
use mochi_beam.Text.Chars.{Text}
use mochi_beam.Types.Kinds.{
  Wrap, Ty, Tys, Opt, plain, wrap, pair, struct, union, func, var, none, more, nil, given,
  same_wrap, same_wrap→eq,
}
use mochi_beam.Types.Equal.{equal_kinds, is_future}
use mochi_beam.Types.Subtype.{
  subtype, flows, flows_all, flows_opt, Direction, forth, back, flip, along, at_top, widens,
  is_covariant, same_name, is_variant,
}
use mochi_beam.Types.Equivalence.{same_wrap_sym, same_pair_sym}

along-flip {ℓ κ} :
    {A : Type ℓ} {B : Type κ} (d : Direction) (f : A → A → B) (a b : A)
    → along (flip d) f a b ≡ along d f b a
along-flip forth f a b = refl
along-flip back f a b = refl

wrap_swap :
    (k l : Wrap) (x y : Bool)
    → (same_wrap k l && (if is_covariant k then x else not (is_future k) && y))
      ≡ (same_wrap l k && (if is_covariant l then x else not (is_future l) && y))
wrap_swap k l x y = elim (Bool-cases (same_wrap k l)) [
  | inl t ↦ rw (same_wrap→eq k l t)
  | inr f ↦ let g : same_wrap l k ≡ false = same_wrap_sym l k ∙ f in rw (f, g)
]

mutual
  unfolding flows flows_all flows_opt

  -- The direction only says in which order the two types are given.
  pub flows-flip : (d : Direction) (s t : Ty) → flows (flip d) s t ≡ flows d t s
  flows-flip d (plain a) (plain b) =
      rw (along-flip d at_top (plain a) (plain b), along-flip d widens a b)
  flows-flip d (wrap k a) (wrap l b) = rw (
    along-flip d at_top (wrap k a) (wrap l b),
    flows-flip d a b,
    along-flip d equal_kinds a b,
    wrap_swap k l (flows d b a) (along d equal_kinds b a),
  )
  flows-flip d (pair k a1 a2) (pair l b1 b2) = rw (
    along-flip d at_top (pair k a1 a2) (pair l b1 b2),
    same_pair_sym k l,
    along-flip d equal_kinds a1 b1,
    along-flip d equal_kinds a2 b2,
  )
  flows-flip d (struct n fs) (struct m gs) =
      rw (along-flip d at_top (struct n fs) (struct m gs), along-flip d same_name n m)
  flows-flip d (union n vs) (union m ws) =
      rw (along-flip d at_top (union n vs) (union m ws), along-flip d same_name n m)
  flows-flip d (func ps v r e q) (func ps' v' r' e' q') = rw (
    along-flip d at_top (func ps v r e q) (func ps' v' r' e' q'),
    flows_all-flip (flip d) ps ps',
    flows_opt-flip (flip d) v v',
    flows_opt-flip d r r',
  )
  flows-flip d (var n) (var m) =
      rw (along-flip d at_top (var n) (var m), along-flip d is_variant (var n) (var m))
  flows-flip d s t = rw (along-flip d at_top s t, along-flip d is_variant s t)

  flows_all-flip : (d : Direction) (s t : Tys) → flows_all (flip d) s t ≡ flows_all d t s
  flows_all-flip d none none = refl
  flows_all-flip d (more a xs) (more b ys) = rw (flows-flip d a b, flows_all-flip d xs ys)
  flows_all-flip d _ _ = refl

  flows_opt-flip : (d : Direction) (s t : Opt) → flows_opt (flip d) s t ≡ flows_opt d t s
  flows_opt-flip d nil nil = refl
  flows_opt-flip d (given a) (given b) = flows-flip d a b
  flows_opt-flip d _ _ = refl

-- The loop over the parameters, and the tests on types that may be nil.
abbrev pub all_below : Tys → Tys → Bool
all_below none none = true
all_below (more a xs) (more b ys) = subtype a b && all_below xs ys
all_below _ _ = false

abbrev pub opt_below : Opt → Opt → Bool
opt_below nil nil = true
opt_below (given a) (given b) = subtype a b
opt_below _ _ = false

flows_all-forth : (s t : Tys) → flows_all forth s t ≡ all_below s t
unfolding flows_all subtype
flows_all-forth none none = refl
flows_all-forth (more a xs) (more b ys) = rw (flows_all-forth xs ys)
flows_all-forth _ _ = refl

flows_opt-forth : (s t : Opt) → flows_opt forth s t ≡ opt_below s t
unfolding flows_opt subtype
flows_opt-forth nil nil = refl
flows_opt-forth (given a) (given b) = refl
flows_opt-forth _ _ = refl

or_false : (x y : Bool) → ((x || false) || y) ≡ (x || y)
or_false true y = refl
or_false false y = refl

-- One function type is below another exactly if they are equal, or they have as many parameters,
-- are variadic and have a result or not together, every parameter and the variadic element of the
-- second is below that of the first, and the result of the first is below that of the second.
pub subtype-func :
    (ps ps' : Tys) (v v' r r' : Opt) (e e' : ℕ) (q q' : List Text)
    → subtype (func ps v r e q) (func ps' v' r' e' q') ≡ (
        equal_kinds (func ps v r e q) (func ps' v' r' e' q')
        || (all_below ps' ps && opt_below v' v && opt_below r r'))
unfolding subtype flows
subtype-func ps ps' v v' r r' e e' q q' =
    rw
      (
        flows_all-flip forth ps ps',
        flows_opt-flip forth v v',
        flows_all-forth ps' ps,
        flows_opt-forth v' v,
        flows_opt-forth r r',
      )
      (or_false (equal_kinds (func ps v r e q) (func ps' v' r' e' q'))
        (all_below ps' ps && opt_below v' v && opt_below r r'))
