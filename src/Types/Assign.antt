-- ===== src/Types/Assign.antt =====
-- internal/types/subtype.go: `Assignable` is wider than `Subtype`, and functions are contravariant.
use mochi_beam.Base.{
  ◌≡◌, refl, sym, subst, Bool, true, false, ◌&&◌, ◌||◌, not, if◌then◌else◌, Bool-cases, inl, inr,
}
use mochi_beam.Types.Kinds.{
  Wrap, Pair, Ty, plain, wrap, pair, struct, union, func, same_wrap, same_pair, same_wrap→eq,
}
use mochi_beam.Types.Equal.{equal_kinds, is_future}
use mochi_beam.Types.Subtype.{
  is_any, subtype, flows, Direction, forth, back, along, at_top, is_covariant, assignable_at,
  descends, is_option, is_group,
}

top-equal : (d : Direction) (s t : Ty) → along d equal_kinds s t ≡ true → along d at_top s t ≡ true
top-equal forth s t h = rw (h)
top-equal back s t h = rw (h)

-- Equal types are below each other.
pub flows-equal : (d : Direction) (s t : Ty) → along d equal_kinds s t ≡ true → flows d s t ≡ true
unfolding flows
flows-equal d (plain a) (plain b) h = rw (top-equal d (plain a) (plain b) h)
flows-equal d (wrap k a) (wrap l b) h = rw (top-equal d (wrap k a) (wrap l b) h)
flows-equal d (pair k a1 a2) (pair l b1 b2) h = rw (top-equal d (pair k a1 a2) (pair l b1 b2) h)
flows-equal d (struct n fs) (struct m gs) h = rw (top-equal d (struct n fs) (struct m gs) h)
flows-equal d (union n vs) (union m ws) h = rw (top-equal d (union n vs) (union m ws) h)
flows-equal d (func ps v r e q) (func ps' v' r' e' q') h =
    rw (top-equal d (func ps v r e q) (func ps' v' r' e' q') h)
flows-equal d s t h = rw (top-equal d s t h)

wrap_logic :
    (f s e c w : Bool)
    → (e ≡ true → w ≡ true)
    → (((not f && s && e) || false) || (s && (if c then w else not f && e))) ≡ true
    → (s ≡ true) × (w ≡ true)
wrap_logic true false e c w g h = cc
wrap_logic false false e c w g h = cc
wrap_logic true true e true w g h = (refl, h)
wrap_logic true true e false w g h = cc
wrap_logic false true true c w g h = (refl, g refl)
wrap_logic false true false true w g h = (refl, h)
wrap_logic false true false false w g h = cc

wrap-below :
    (k l : Wrap) (a b : Ty)
    → flows forth (wrap k a) (wrap l b) ≡ true
    → (same_wrap k l ≡ true) × (flows forth a b ≡ true)
unfolding flows equal_kinds
wrap-below k l a b h =
    wrap_logic (is_future k) (same_wrap k l) (equal_kinds a b) (is_covariant k) (flows forth a b)
      (flows-equal forth a b) h

pair_logic :
    (s x y : Bool) → (((s && x && y) || false) || (s && x && y)) ≡ true → (x ≡ true) × (y ≡ true)
pair_logic true true true h = (refl, refl)
pair_logic true true false h = cc
pair_logic true false y h = cc
pair_logic false x y h = cc

pair-below :
    (k l : Pair) (a1 a2 b1 b2 : Ty)
    → flows forth (pair k a1 a2) (pair l b1 b2) ≡ true
    → (flows forth a1 b1 ≡ true) × (flows forth a2 b2 ≡ true)
unfolding flows equal_kinds
pair-below k l a1 a2 b1 b2 h =
    let (x, y) = pair_logic (same_pair k l) (equal_kinds a1 b1) (equal_kinds a2 b2) h in
    (flows-equal forth a1 b1 x, flows-equal forth a2 b2 y)

stays :
    (s o x y z : Bool) → z ≡ true → (if s && false then x else (if o && not o then y else z)) ≡ true
stays true true x y z h = h
stays true false x y z h = h
stays false true x y z h = h
stays false false x y z h = h

or_flow :
    (x : Bool) (s t : Ty) → flows forth s t ≡ true → (if x then true else flows forth s t) ≡ true
or_flow true s t h = refl
or_flow false s t h = h

-- Where one type is below another, a value of the first is assignable to a place of the second, as
-- an element or not.
pub assignable_at-subtype :
    (s t : Ty) (elems : Bool) → subtype s t ≡ true → assignable_at s t elems ≡ true
unfolding assignable_at subtype flows equal_kinds
assignable_at-subtype (wrap k a) (wrap l b) elems h =
    let (same, below) = wrap-below k l a b h in
    let inner = assignable_at-subtype a b true below in
    elim (Bool-cases (descends k)) [
      | inl d ↦ rw (same, d, inner)
      | inr d ↦
          rw (d, sym (same_wrap→eq k l same))
            (stays (same_wrap k k) (is_option k) (assignable_at a b true)
              (assignable_at (wrap k a) b elems) (flows forth (wrap k a) (wrap k b))
              (subst (λ m. flows forth (wrap k a) (wrap m b) ≡ true) (sym (same_wrap→eq k l same))
                h))
    ]
assignable_at-subtype (pair k a1 a2) (pair l b1 b2) elems h =
    let (below1, below2) = pair-below k l a1 a2 b1 b2 h in
    let inner1 = assignable_at-subtype a1 b1 true below1 in
    let inner2 = assignable_at-subtype a2 b2 true below2 in
    rw (inner1, inner2)
      (or_flow (same_pair k l && not (is_group k)) (pair k a1 a2) (pair l b1 b2) h)
assignable_at-subtype (plain a) (wrap l b) elems h = cc
assignable_at-subtype s (wrap l b) elems h = cc
assignable_at-subtype s t elems h = or_flow (is_any t || (elems && is_any s)) s t h
