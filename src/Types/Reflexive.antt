-- ===== src/Types/Reflexive.antt =====
-- internal/types/subtype.go: which types are equal to themselves and below themselves.
use mochi_beam.Base.{
  ◌≡◌, refl, sym, Bool, true, false, [], ◌∷◌, ◌&&◌, ◌||◌, not, if◌then◌else◌, arith,
}
use mochi_beam.Text.Chars.{Text, text_eq_refl}
use mochi_beam.Types.Kinds.{
  Wrap, Ty, Tys, Opt, Fields, plain, wrap, pair, struct, union, func, var, none, more, nil, given,
  no_fields, field, future, set, list, option, chan, stream, sub,
}
use mochi_beam.Types.Equal.{
  equal_kinds, equal_all, equal_opt, equal_fields, is_future, is_named, by_name,
}
use mochi_beam.Types.Subtype.{
  is_any, subtype, flows, flows_all, flows_opt, Direction, forth, back, flip, along, at_top,
  is_covariant, same_name,
}
use mochi_beam.Types.Equivalence.{same_plain_refl, same_wrap_refl, same_pair_refl}

-- No future stands in the type, outside of the fields of structs with a name and of unions.
unfoldable mutual
  pub no_future : Ty → Bool
  no_future (plain a) = true
  no_future (wrap k a) = not (is_future k) && no_future a
  no_future (pair k a b) = no_future a && no_future b
  no_future (struct n fs) = is_named n || no_future_fields fs
  no_future (union n vs) = true
  no_future (func ps v r e q) = no_future_all ps && no_future_opt v && no_future_opt r
  no_future (var n) = true

  pub no_future_all : Tys → Bool
  no_future_all none = true
  no_future_all (more a as') = no_future a && no_future_all as'

  pub no_future_opt : Opt → Bool
  no_future_opt nil = true
  no_future_opt (given a) = no_future a

  pub no_future_fields : Fields → Bool
  no_future_fields no_fields = true
  no_future_fields (field n a fs) = no_future a && no_future_fields fs

by_name_self : (n : Text) (x y : Bool) → x ≡ y → by_name n n x ≡ (is_named n || y)
by_name_self [] x y h = h
by_name_self (c ∷ n) x y h = text_eq_refl (c ∷ n)

mutual
  unfolding equal_kinds equal_all equal_opt equal_fields no_future no_future_all no_future_opt
      no_future_fields

  pub equal_kinds_self : (t : Ty) → equal_kinds t t ≡ no_future t
  equal_kinds_self (plain a) = same_plain_refl a
  equal_kinds_self (wrap k a) = rw (same_wrap_refl k, equal_kinds_self a) ground arith
  equal_kinds_self (pair k a b) = rw (same_pair_refl k, equal_kinds_self a, equal_kinds_self b)
  equal_kinds_self (struct n fs) =
      by_name_self n (equal_fields fs fs) (no_future_fields fs) (equal_fields_self fs)
  equal_kinds_self (union n vs) = text_eq_refl n
  equal_kinds_self (func ps v r e q) = rw (equal_all_self ps, equal_opt_self v, equal_opt_self r)
  equal_kinds_self (var n) = text_eq_refl n

  equal_all_self : (t : Tys) → equal_all t t ≡ no_future_all t
  equal_all_self none = refl
  equal_all_self (more a xs) = rw (equal_kinds_self a, equal_all_self xs)

  equal_opt_self : (t : Opt) → equal_opt t t ≡ no_future_opt t
  equal_opt_self nil = refl
  equal_opt_self (given a) = equal_kinds_self a

  equal_fields_self : (t : Fields) → equal_fields t t ≡ no_future_fields t
  equal_fields_self no_fields = refl
  equal_fields_self (field n a fs) = rw (text_eq_refl n, equal_kinds_self a, equal_fields_self fs)

along_self {ℓ κ} :
    {A : Type ℓ} {B : Type κ} (d : Direction) (f : A → A → B) (a : A) → along d f a a ≡ f a a
along_self forth f a = refl
along_self back f a = refl

same_name_self : (n : Text) → same_name n n ≡ is_named n
same_name_self [] = refl
same_name_self (c ∷ n) = text_eq_refl (c ∷ n)

or_self : (x : Bool) → (x || x) ≡ x
or_self true = refl
or_self false = refl

or_again : (x y : Bool) → ((x || y) || x) ≡ (x || y)
or_again true y = refl
or_again false true = refl
or_again false false = refl

or_any : (t : Ty) (x : Bool) → (no_future t ≡ x) → (x || is_any t) ≡ x
unfolding no_future
or_any (plain a) x h = rw (sym h)
or_any t true h = refl
or_any t false h = refl

top_self : (d : Direction) (t : Ty) → along d at_top t t ≡ no_future t
top_self d t = rw (along_self d at_top t, equal_kinds_self t) (or_any t (no_future t) refl)

wrapped :
    (k : Wrap) (x : Bool)
    → ((not (is_future k) && x) || (if is_covariant k then x else not (is_future k) && x))
      ≡ (not (is_future k) && x)
wrapped set x = or_self x
wrapped list x = or_self x
wrapped option x = or_self x
wrapped chan x = or_self x
wrapped stream x = or_self x
wrapped sub x = or_self x
wrapped future x = refl

mutual
  unfolding flows flows_all flows_opt no_future no_future_all no_future_opt no_future_fields

  flows_self : (d : Direction) (t : Ty) → flows d t t ≡ no_future t
  flows_self d (plain a) = rw (top_self d (plain a))
  flows_self d (wrap k a) =
      rw
        (
          top_self d (wrap k a),
          same_wrap_refl k,
          flows_self d a,
          along_self d equal_kinds a,
          equal_kinds_self a,
        )
        (wrapped k (no_future a))
  flows_self d (pair k a b) =
      rw
        (
          top_self d (pair k a b),
          same_pair_refl k,
          along_self d equal_kinds a,
          along_self d equal_kinds b,
          equal_kinds_self a,
          equal_kinds_self b,
        )
        (or_self (no_future a && no_future b))
  flows_self d (struct n fs) =
      rw (top_self d (struct n fs), along_self d same_name n, same_name_self n)
        (or_again (is_named n) (no_future_fields fs))
  flows_self d (union n vs) = rw (top_self d (union n vs))
  flows_self d (func ps v r e q) =
      rw
        (
          top_self d (func ps v r e q),
          flows_all_self (flip d) ps,
          flows_opt_self (flip d) v,
          flows_opt_self d r,
        )
        (or_self (no_future_all ps && no_future_opt v && no_future_opt r))
  flows_self d (var n) = rw (top_self d (var n))

  flows_all_self : (d : Direction) (t : Tys) → flows_all d t t ≡ no_future_all t
  flows_all_self d none = refl
  flows_all_self d (more a xs) = rw (flows_self d a, flows_all_self d xs)

  flows_opt_self : (d : Direction) (t : Opt) → flows_opt d t t ≡ no_future_opt t
  flows_opt_self d nil = refl
  flows_opt_self d (given a) = flows_self d a

-- A type is equal to itself, and is below itself, exactly if it has no future in it outside of the
-- fields of structs with a name and of unions.
pub subtype_self : (t : Ty) → (equal_kinds t t ≡ no_future t) × (subtype t t ≡ no_future t)
unfolding subtype
subtype_self t = (equal_kinds_self t, flows_self forth t)
