-- ===== src/Lockfile/Sorting.antt =====
-- lockfile/entry.go: the order that `Sort` leaves.
use mathlib.Core.List.{Permᴰ}
use mochi_beam.Base.{
  ◌≡◌, ◌↔◌, refl, sym, ap, ◌∙◌, subst, true, false, [], ◌∷◌, List, All, Bool-cases, inl, inr,
}
use mochi_beam.Base.Sort.{sort, IsSorted, sort-IsSorted}
use mochi_beam.Base.Sorted.{keep, keep-sort, sort-Perm}
use mochi_beam.Text.Chars.{Text, text_eq, text_eq→eq, text_eq_refl}
use mochi_beam.Text.Order.{
  text_lt, text_lt_asymmetric, text_lt_irreflexive, text_lt_total, text_lt_between,
}
use mochi_beam.Text.Precedes.{Precedes, not_text_lt-Precedes}
use mochi_beam.Lockfile.Entry.{Entry, entry_lt, sort_entries}

entry_lt-level :
    (n : Text) (a b : Entry)
    → text_eq a.name n ≡ true
    → text_eq b.name n ≡ true
    → entry_lt b a ≡ false
unfolding entry_lt
entry_lt-level n a b h k =
    let q : b.name ≡ a.name = text_eq→eq b.name n k ∙ sym (text_eq→eq a.name n h) in
    ap (text_lt b.name) (sym q) ∙ text_lt_irreflexive b.name

-- The entries of a name, in their order.
abbrev pub named : Text → List Entry → List Entry
named n = keep (λ e. text_eq e.name n)

-- No entry's name precedes the name before it.
abbrev pub IsInOrder : List Entry → Type 0
IsInOrder [] = Unit
IsInOrder (x ∷ []) = Unit
IsInOrder (x ∷ y ∷ ys) = (¬ Precedes y.name x.name) × IsInOrder (y ∷ ys)

IsSorted→IsInOrder : (es : List Entry) → IsSorted entry_lt es → IsInOrder es
unfolding entry_lt
IsSorted→IsInOrder [] s = tt
IsSorted→IsInOrder (x ∷ []) s = tt
IsSorted→IsInOrder (x ∷ y ∷ ys) s =
    ((not_text_lt-Precedes y.name x.name).0 s.0, IsSorted→IsInOrder (y ∷ ys) s.1)

-- No entry after the first is below it.
abbrev IsLeast : Entry → Entry → Type 0
IsLeast x y = text_lt y.name x.name ≡ false

IsLeast-text_lt : (x y z : Entry) → IsLeast x y → IsLeast y z → IsLeast x z
IsLeast-text_lt x y z h k = elim (Bool-cases (text_lt z.name x.name)) [
  | inl e ↦ let q = text_lt_between x.name y.name z.name k e in cc
  | inr e ↦ e
]

IsLeast-raised :
    (x y : Entry) (zs : List Entry) → IsLeast x y → All (IsLeast y) zs → All (IsLeast x) zs
IsLeast-raised x y [] h a = tt
IsLeast-raised x y (z ∷ zs) h a = (IsLeast-text_lt x y z h a.0, IsLeast-raised x y zs h a.1)

All-IsLeast : (x : Entry) (ys : List Entry) → IsInOrder (x ∷ ys) → All (IsLeast x) ys
All-IsLeast x [] s = tt
All-IsLeast x (y ∷ ys) s =
    let h = (not_text_lt-Precedes y.name x.name).1 s.0 in
    (h, IsLeast-raised x y ys h (All-IsLeast y ys s.1))

tail-IsInOrder : (x : Entry) (ys : List Entry) → IsInOrder (x ∷ ys) → IsInOrder ys
tail-IsInOrder x [] s = tt
tail-IsInOrder x (y ∷ ys) s = s.1

named-first :
    (n : Text) (x : Entry) (xs : List Entry)
    → text_eq x.name n ≡ true
    → named n (x ∷ xs) ≡ x ∷ named n xs
named-first n x xs h = rw (h)

named-other :
    (n : Text) (x : Entry) (xs : List Entry)
    → text_eq x.name n ≡ false
    → named n (x ∷ xs) ≡ named n xs
named-other n x xs h = rw (h)

-- A name below all others does not occur.
other_name : (n m k : Text) → text_lt n m ≡ true → text_lt k m ≡ false → text_eq k n ≡ false
other_name n m k h l = elim (Bool-cases (text_eq k n)) [
  | inl e ↦ let q = subst (λ z. text_lt z m ≡ false) (text_eq→eq k n e) l in cc
  | inr e ↦ e
]

named-below :
    (n : Text) (y : Entry) (zs : List Entry)
    → text_lt n y.name ≡ true
    → All (IsLeast y) zs
    → named n zs ≡ []
named-below n y [] h a = refl
named-below n y (z ∷ zs) h a =
    named-other n z zs (other_name n y.name z.name h a.0) ∙ named-below n y zs h a.1

not_text_eq : (m n : Text) → text_lt m n ≡ true → text_eq n m ≡ false
not_text_eq m n h = other_name m n n h (text_lt_irreflexive n)

-- The first of an ordered list is not below the first of another that has the same entries of each name.
not_below_first :
    (x y : Entry) (xs ys : List Entry)
    → IsInOrder (y ∷ ys)
    → ((n : Text) → named n (x ∷ xs) ≡ named n (y ∷ ys))
    → text_lt x.name y.name ≡ false
not_below_first x y xs ys s h = elim (Bool-cases (text_lt x.name y.name)) [
  | inr e ↦ e
  | inl e ↦
      let q : x ∷ named x.name xs ≡ [] =
        sym (named-first x.name x xs (text_eq_refl x.name))
        ∙ (h x.name
            ∙ (named-other x.name y ys (not_text_eq x.name y.name e)
                ∙ named-below x.name y ys e (All-IsLeast y ys s))) in
      cc
]

same_tails :
    (x y : Entry) (xs ys : List Entry)
    → x ≡ y
    → ((n : Text) → named n (x ∷ xs) ≡ named n (y ∷ ys))
    → (n : Text) → named n xs ≡ named n ys
same_tails x y xs ys q h n =
    let k : named n (x ∷ xs) ≡ named n (x ∷ ys) = h n ∙ ap (λ z. named n (z ∷ ys)) (sym q) in
    elim (Bool-cases (text_eq x.name n)) [
      | inl e ↦
          let c : x ∷ named n xs ≡ x ∷ named n ys =
            sym (named-first n x xs e) ∙ (k ∙ named-first n x ys e) in
          cc
      | inr e ↦ sym (named-other n x xs e) ∙ (k ∙ named-other n x ys e)
    ]

-- Two lists in order with the same entries of each name are equal.
in_order_unique :
    (xs ys : List Entry)
    → IsInOrder xs
    → IsInOrder ys
    → ((n : Text) → named n xs ≡ named n ys)
    → xs ≡ ys
in_order_unique [] [] s t h = refl
in_order_unique [] (y ∷ ys) s t h =
    let q = h y.name ∙ named-first y.name y ys (text_eq_refl y.name) in cc
in_order_unique (x ∷ xs) [] s t h =
    let q = sym (h x.name) ∙ named-first x.name x xs (text_eq_refl x.name) in cc
in_order_unique (x ∷ xs) (y ∷ ys) s t h =
    let level =
      text_lt_total x.name y.name (not_below_first x y xs ys t h)
        (not_below_first y x ys xs s (λ n. sym (h n))) in
    let c : x ∷ named x.name xs ≡ y ∷ named x.name ys =
      sym (named-first x.name x xs (text_eq_refl x.name))
      ∙ (h x.name
          ∙ named-first x.name y ys
              (subst (λ z. text_eq z x.name ≡ true) level (text_eq_refl x.name))) in
    let first : x ≡ y = cc in
    let rest =
      in_order_unique xs ys (tail-IsInOrder x xs s) (tail-IsInOrder y ys t)
        (same_tails x y xs ys first h) in
    ap (λ z. z ∷ xs) first ∙ ap (λ z. y ∷ z) rest

sort_entries-IsInOrder : (es : List Entry) → IsInOrder (sort_entries es)
unfolding sort_entries
sort_entries-IsInOrder es =
    IsSorted→IsInOrder (sort entry_lt es)
      (sort-IsSorted entry_lt (unfold entry_lt in (λ a b. text_lt_asymmetric a.name b.name)) es)

named-sort_entries : (es : List Entry) (n : Text) → named n (sort_entries es) ≡ named n es
unfolding sort_entries
named-sort_entries es n = keep-sort entry_lt (λ e. text_eq e.name n) (entry_lt-level n) es

-- `Manifest.Sort` sorts the entries by their names and is stable, and no other list would do: a list
-- is the one that `Sort` leaves exactly if no name in it precedes the name before it, as a proper
-- prefix or with a smaller character where the two differ first, and the entries of each name stand
-- in it as they stood before. The entries are those of before.
pub sort_entries_iff :
    (es r : List Entry)
    → ((r ≡ sort_entries es) ↔ (IsInOrder r × ((n : Text) → named n r ≡ named n es)))
      × Permᴰ (sort_entries es) es
sort_entries_iff es r = (
  (
    λ q. (
      subst IsInOrder (sym q) (sort_entries-IsInOrder es),
      λ n. ap (named n) q ∙ named-sort_entries es n,
    ),
    λ h.
        in_order_unique r (sort_entries es) h.0 (sort_entries-IsInOrder es)
          (λ n. h.1 n ∙ sym (named-sort_entries es n)),
  ),
  unfold sort_entries in sort-Perm entry_lt es,
)
