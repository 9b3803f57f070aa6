-- ===== src/Types/Equivalence.antt =====
-- internal/types/subtype.go: `equalKinds` is symmetric and transitive, and holds of a type and
-- itself exactly if no future is in it.
use mochi_beam.Base.{
  ◌≡◌, refl, sym, ◌∙◌, subst, Bool, true, false, [], ◌∷◌, ◌&&◌, not, arith, Bool-cases, inl, inr,
}
use mochi_beam.Text.Chars.{Text, text_eq, text_eq→eq}
use mochi_beam.Types.Kinds.{
  Plain, Wrap, Pair, Ty, Tys, Opt, Fields, plain, wrap, pair, struct, union, func, var, none, more,
  nil, given, no_fields, field, same_plain, same_wrap, same_pair, same_wrap→eq,
}
use mochi_beam.Types.Equal.{equal_kinds, equal_all, equal_opt, equal_fields, is_future, by_name}

pub text_eq_sym : (a b : Text) → text_eq a b ≡ text_eq b a
unfolding text_eq
text_eq_sym [] [] = refl
text_eq_sym [] (b ∷ t) = refl
text_eq_sym (a ∷ s) [] = refl
text_eq_sym (a ∷ s) (b ∷ t) = ground (arith, text_eq_sym s t)

pub text_eq_trans : (a b c : Text) → text_eq a b ≡ true → text_eq b c ≡ true → text_eq a c ≡ true
text_eq_trans a b c h k = subst (λ x. text_eq x c ≡ true) (sym (text_eq→eq a b h)) k

pub same_plain_sym : (a b : Plain) → same_plain a b ≡ same_plain b a
unfolding same_plain
same_plain_sym a b = ground arith

pub same_plain_trans :
    (a b c : Plain) → same_plain a b ≡ true → same_plain b c ≡ true → same_plain a c ≡ true
unfolding same_plain
same_plain_trans a b c h k = ground arith

pub same_wrap_sym : (a b : Wrap) → same_wrap a b ≡ same_wrap b a
unfolding same_wrap
same_wrap_sym a b = ground arith

pub same_wrap_trans :
    (a b c : Wrap) → same_wrap a b ≡ true → same_wrap b c ≡ true → same_wrap a c ≡ true
unfolding same_wrap
same_wrap_trans a b c h k = ground arith

pub same_pair_sym : (a b : Pair) → same_pair a b ≡ same_pair b a
unfolding same_pair
same_pair_sym a b = ground arith

pub same_pair_trans :
    (a b c : Pair) → same_pair a b ≡ true → same_pair b c ≡ true → same_pair a c ≡ true
unfolding same_pair
same_pair_trans a b c h k = ground arith

pub same_plain_refl : (a : Plain) → same_plain a a ≡ true
unfolding same_plain
same_plain_refl a = ground arith

pub same_wrap_refl : (a : Wrap) → same_wrap a a ≡ true
unfolding same_wrap
same_wrap_refl a = ground arith

pub same_pair_refl : (a : Pair) → same_pair a a ≡ true
unfolding same_pair
same_pair_refl a = ground arith

by_name_sym : (n m : Text) (x y : Bool) → x ≡ y → by_name n m x ≡ by_name m n y
by_name_sym [] [] x y h = h
by_name_sym [] (b ∷ m) x y h = text_eq_sym [] (b ∷ m)
by_name_sym (a ∷ n) [] x y h = text_eq_sym (a ∷ n) []
by_name_sym (a ∷ n) (b ∷ m) x y h = text_eq_sym (a ∷ n) (b ∷ m)

by_name_trans :
    (n m p : Text) (x y z : Bool)
    → (x ≡ true → y ≡ true → z ≡ true)
    → by_name n m x ≡ true
    → by_name m p y ≡ true
    → by_name n p z ≡ true
unfolding text_eq
by_name_trans [] [] [] x y z f h k = f h k
by_name_trans [] [] (c ∷ p) x y z f h k = cc
by_name_trans [] (b ∷ m) p x y z f h k = cc
by_name_trans (a ∷ n) [] p x y z f h k = cc
by_name_trans (a ∷ n) (b ∷ m) [] x y z f h k = cc
by_name_trans (a ∷ n) (b ∷ m) (c ∷ p) x y z f h k = text_eq_trans (a ∷ n) (b ∷ m) (c ∷ p) h k

wrap_sym :
    (k l : Wrap) (x : Bool)
    → (not (is_future k) && same_wrap k l && x) ≡ (not (is_future l) && same_wrap l k && x)
wrap_sym k l x = elim (Bool-cases (same_wrap k l)) [
  | inl t ↦ rw (same_wrap→eq k l t)
  | inr f ↦ let g : same_wrap l k ≡ false = same_wrap_sym l k ∙ f in rw (f, g) ground arith
]

mutual
  unfolding equal_kinds equal_all equal_opt equal_fields

  pub equal_kinds_sym : (a b : Ty) → equal_kinds a b ≡ equal_kinds b a
  equal_kinds_sym (plain a) (plain b) = same_plain_sym a b
  equal_kinds_sym (wrap k a) (wrap l b) = rw (equal_kinds_sym a b, wrap_sym k l (equal_kinds b a))
  equal_kinds_sym (pair k a1 a2) (pair l b1 b2) =
      rw (same_pair_sym k l, equal_kinds_sym a1 b1, equal_kinds_sym a2 b2)
  equal_kinds_sym (struct n fs) (struct m gs) =
      by_name_sym n m (equal_fields fs gs) (equal_fields gs fs) (equal_fields_sym fs gs)
  equal_kinds_sym (union n vs) (union m ws) = text_eq_sym n m
  equal_kinds_sym (func ps v r e q) (func ps' v' r' e' q') =
      rw (equal_all_sym ps ps', equal_opt_sym v v', equal_opt_sym r r')
  equal_kinds_sym (var n) (var m) = text_eq_sym n m
  equal_kinds_sym _ _ = refl

  equal_all_sym : (a b : Tys) → equal_all a b ≡ equal_all b a
  equal_all_sym none none = refl
  equal_all_sym (more a xs) (more b ys) = rw (equal_kinds_sym a b, equal_all_sym xs ys)
  equal_all_sym _ _ = refl

  equal_opt_sym : (a b : Opt) → equal_opt a b ≡ equal_opt b a
  equal_opt_sym nil nil = refl
  equal_opt_sym (given a) (given b) = equal_kinds_sym a b
  equal_opt_sym _ _ = refl

  equal_fields_sym : (a b : Fields) → equal_fields a b ≡ equal_fields b a
  equal_fields_sym no_fields no_fields = refl
  equal_fields_sym (field n a fs) (field m b gs) =
      rw (text_eq_sym n m, equal_kinds_sym a b, equal_fields_sym fs gs)
  equal_fields_sym _ _ = refl

mutual
  unfolding equal_kinds equal_all equal_opt equal_fields

  pub equal_kinds_trans :
      (a b c : Ty) → equal_kinds a b ≡ true → equal_kinds b c ≡ true → equal_kinds a c ≡ true
  equal_kinds_trans (plain a) (plain b) (plain c) h k = same_plain_trans a b c h k
  equal_kinds_trans (wrap x a) (wrap y b) (wrap z c) h k =
      ground (arith, same_wrap_trans x y z, equal_kinds_trans a b c)
  equal_kinds_trans (pair x a1 a2) (pair y b1 b2) (pair z c1 c2) h k =
      ground (arith, same_pair_trans x y z, equal_kinds_trans a1 b1 c1, equal_kinds_trans a2 b2 c2)
  equal_kinds_trans (struct n fs) (struct m gs) (struct p hs) h k =
      by_name_trans n m p (equal_fields fs gs) (equal_fields gs hs) (equal_fields fs hs)
        (equal_fields_trans fs gs hs) h k
  equal_kinds_trans (union n us) (union m vs) (union p ws) h k = text_eq_trans n m p h k
  equal_kinds_trans (func ps v r e q) (func ps' v' r' e' q') (func qs w s d t) h k =
      ground (arith, equal_all_trans ps ps' qs, equal_opt_trans v v' w, equal_opt_trans r r' s)
  equal_kinds_trans (var n) (var m) (var p) h k = text_eq_trans n m p h k
  equal_kinds_trans _ _ _ h k = cc

  pub equal_all_trans :
      (a b c : Tys) → equal_all a b ≡ true → equal_all b c ≡ true → equal_all a c ≡ true
  equal_all_trans none none c h k = k
  equal_all_trans (more a xs) (more b ys) (more c zs) h k =
      ground (arith, equal_kinds_trans a b c, equal_all_trans xs ys zs)
  equal_all_trans _ _ _ h k = cc

  pub equal_opt_trans :
      (a b c : Opt) → equal_opt a b ≡ true → equal_opt b c ≡ true → equal_opt a c ≡ true
  equal_opt_trans nil nil c h k = k
  equal_opt_trans (given a) (given b) (given c) h k = equal_kinds_trans a b c h k
  equal_opt_trans _ _ _ h k = cc

  pub equal_fields_trans :
      (a b c : Fields) → equal_fields a b ≡ true → equal_fields b c ≡ true → equal_fields a c ≡ true
  equal_fields_trans no_fields no_fields c h k = k
  equal_fields_trans (field n a fs) (field m b gs) (field p c hs) h k =
      ground (arith, text_eq_trans n m p, equal_kinds_trans a b c, equal_fields_trans fs gs hs)
  equal_fields_trans _ _ _ h k = cc

-- `equalKinds` is symmetric and transitive.
pub equal_kinds_equivalence :
    (a b c : Ty)
    → (equal_kinds a b ≡ equal_kinds b a)
      × (equal_kinds a b ≡ true → equal_kinds b c ≡ true → equal_kinds a c ≡ true)
equal_kinds_equivalence a b c = (equal_kinds_sym a b, equal_kinds_trans a b c)
