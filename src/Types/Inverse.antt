-- ===== src/Types/Inverse.antt =====
-- internal/types/subtype.go: what `Subtype` says of the parts of two types.
use mochi_beam.Base.{
  ℕ, ◌≡◌, refl, sym, ◌∙◌, Bool, true, false, List, ◌&&◌, ◌||◌, not, if◌then◌else◌, ◌⊎◌, inl, inr,
}
use mochi_beam.Text.Chars.{Text}
use mochi_beam.Types.Kinds.{
  Plain, Wrap, Pair, Ty, Tys, Opt, plain, wrap, pair, struct, func, none, more, nil, given,
  same_plain, same_wrap, same_wrap→eq, any,
}
use mochi_beam.Types.Equal.{equal_kinds, equal_all, equal_opt, is_future}
use mochi_beam.Types.Subtype.{is_any, subtype, flows, forth, at_top, widens, is_covariant}
use mochi_beam.Types.Equivalence.{equal_kinds_sym, same_wrap_refl}
use mochi_beam.Types.Assign.{flows-equal}
use mochi_beam.Types.Contra.{subtype-func, all_below, opt_below}

-- The two sides of a disjunction.
pub or_cases : (x y : Bool) → (x || y) ≡ true → (x ≡ true) ⊎ (y ≡ true)
or_cases true y h = inl refl
or_cases false y h = inr h

or_self : (x : Bool) → ((x || false) || x) ≡ true → x ≡ true
or_self true h = refl
or_self false h = h

pub or_right : (x y : Bool) → y ≡ true → (x || y) ≡ true
or_right true y h = refl
or_right false y h = h

pub or_left : (x y : Bool) → x ≡ true → (x || y) ≡ true
or_left true y h = refl
or_left false y h = cc

pub and_both : (x y : Bool) → (x && y) ≡ true → (x ≡ true) × (y ≡ true)
and_both true y h = (refl, h)
and_both false y h = cc

pub and_intro : (x y : Bool) → x ≡ true → y ≡ true → (x && y) ≡ true
and_intro true y h k = k
and_intro false y h k = cc

-- Equal types are below each other, and everything is below `any`.
pub subtype-equal : (s t : Ty) → equal_kinds s t ≡ true → subtype s t ≡ true
unfolding subtype
subtype-equal s t h = flows-equal forth s t h

pub below_any : (s t : Ty) → is_any t ≡ true → subtype s t ≡ true
unfolding subtype flows equal_kinds
below_any (plain a) (plain b) h =
    or_left (at_top (plain a) (plain b)) (widens a b)
      (or_right (equal_kinds (plain a) (plain b)) (is_any (plain b)) h)
below_any s (plain any) h = refl
below_any s t h = cc

-- What stands below or above a plain type.
pub above_any : (t : Ty) → subtype (plain any) t ≡ true → is_any t ≡ true
unfolding subtype flows equal_kinds same_plain
above_any (plain any) h = refl
above_any (plain b) h = cc
above_any t h = cc

abbrev pub is_plain : Ty → Bool
is_plain (plain a) = true
is_plain _ = false

pub plain_above :
    (s : Ty) (b : Plain) → is_plain s ≡ false → subtype s (plain b) ≡ true → is_any (plain b) ≡ true
unfolding subtype flows equal_kinds
plain_above (plain a) b n h = cc
plain_above (struct n fs) any p h = refl
plain_above s any n h = refl
plain_above s b n h = cc

-- The elements of two wrapped types.
abbrev pub elements : Wrap → Ty → Ty → Bool
elements k a b = if is_covariant k then subtype a b else not (is_future k) && equal_kinds a b

wrap_logic :
    (f s e c w : Bool)
    → (e ≡ true → w ≡ true)
    → (((not f && s && e) || false) || (s && (if c then w else not f && e))) ≡ true
    → (s ≡ true) × ((if c then w else not f && e) ≡ true)
wrap_logic true false e c w g h = cc
wrap_logic false false e c w g h = cc
wrap_logic true true e c w g h = (refl, h)
wrap_logic false true true true w g h = (refl, g refl)
wrap_logic false true true false w g h = (refl, refl)
wrap_logic false true false c w g h = (refl, h)

pub wrap-inverse :
    (k l : Wrap) (a b : Ty)
    → subtype (wrap k a) (wrap l b) ≡ true
    → (k ≡ l) × (elements k a b ≡ true)
unfolding subtype flows equal_kinds
wrap-inverse k l a b h =
    let (s, x) =
      wrap_logic (is_future k) (same_wrap k l) (equal_kinds a b) (is_covariant k) (flows forth a b)
        (flows-equal forth a b) h in
    (same_wrap→eq k l s, x)

pub wrap_intro :
    (k : Wrap) (a b : Ty) → elements k a b ≡ true → subtype (wrap k a) (wrap k b) ≡ true
unfolding subtype flows
wrap_intro k a b h =
    or_right (at_top (wrap k a) (wrap k b)) _ (and_intro (same_wrap k k) _ (same_wrap_refl k) h)

pub pair-inverse :
    (k l : Pair) (a1 a2 b1 b2 : Ty)
    → subtype (pair k a1 a2) (pair l b1 b2) ≡ true
    → equal_kinds (pair k a1 a2) (pair l b1 b2) ≡ true
unfolding subtype flows equal_kinds
pair-inverse k l a1 a2 b1 b2 h = or_self _ h

all_below-equal : (ps qs : Tys) → equal_all ps qs ≡ true → all_below qs ps ≡ true
unfolding equal_all
all_below-equal none none h = refl
all_below-equal (more a xs) (more b ys) h =
    let (x, y) = and_both (equal_kinds a b) (equal_all xs ys) h in
    and_intro (subtype b a) (all_below ys xs) (subtype-equal b a (equal_kinds_sym b a ∙ x))
      (all_below-equal xs ys y)
all_below-equal _ _ h = cc

opt_below-equal :
    (v w : Opt) → equal_opt v w ≡ true → (opt_below w v ≡ true) × (opt_below v w ≡ true)
unfolding equal_opt
opt_below-equal nil nil h = (refl, refl)
opt_below-equal (given a) (given b) h =
    (subtype-equal b a (equal_kinds_sym b a ∙ h), subtype-equal a b h)
opt_below-equal _ _ h = cc

and_three : (x y z : Bool) → (x && y && z) ≡ true → (x ≡ true) × (y ≡ true) × (z ≡ true)
and_three true true true h = (refl, refl, refl)
and_three true true false h = cc
and_three true false z h = cc
and_three false y z h = cc

pub and_three_intro : (x y z : Bool) → x ≡ true → y ≡ true → z ≡ true → (x && y && z) ≡ true
and_three_intro x y z hx hy hz = rw (hx, hy, hz)

pub func-inverse :
    (ps ps' : Tys) (v v' r r' : Opt) (e e' : ℕ) (q q' : List Text)
    → subtype (func ps v r e q) (func ps' v' r' e' q') ≡ true
    → (all_below ps' ps ≡ true) × (opt_below v' v ≡ true) × (opt_below r r' ≡ true)
unfolding equal_kinds
func-inverse ps ps' v v' r r' e e' q q' h =
    elim (or_cases (equal_all ps ps' && equal_opt v v' && equal_opt r r')
      (all_below ps' ps && opt_below v' v && opt_below r r')
      (sym (subtype-func ps ps' v v' r r' e e' q q') ∙ h)) [
        | inl k ↦
            let (x, y, z) = and_three (equal_all ps ps') (equal_opt v v') (equal_opt r r') k in
            (all_below-equal ps ps' x, (opt_below-equal v v' y).0, (opt_below-equal r r' z).1)
        | inr k ↦ and_three (all_below ps' ps) (opt_below v' v) (opt_below r r') k
      ]
