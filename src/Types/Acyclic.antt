-- ===== src/Types/Acyclic.antt =====
-- internal/types/subst.go: where `Apply` ends, and that `Bind` keeps it so.
use mathlib.Core.WellFounded.{Acc}
use mochi_beam.Base.{
  ℕ, zero, suc, ◌≡◌, ◌≢◌, refl, sym, ap, subst, ◌∙◌, Bool, true, false, [], ◌∷◌, Option, none, some,
  ◌⊎◌, inl, inr, Bool-cases, Option-cases,
}
use mochi_beam.Text.Chars.{Text, text_eq, text_eq→eq, text_eq_refl}
use mochi_beam.Types.Kinds.{Ty}
use mochi_beam.Base.Results.{ok, err}
use mochi_beam.Types.Vars.{HasVar, IsOpen, search-false}
use mochi_beam.Types.Subst.{Subst, get, put, hit, occurs, bind_var, is_var, occurs_check}

-- `y` stands in the image of `x`.
abbrev pub Below : Subst → Text → Text → Type 0
Below s y x = (t : Ty) × (get s x ≡ some t) × HasVar y t

-- No chain of bindings goes on for ever.
abbrev pub IsAcyclic : Subst → Type 0
IsAcyclic s = (x : Text) → Acc (Below s) x

-- The images of the bindings have no channel, stream, subscriber or future.
abbrev pub ImagesAreOpen : Subst → Type 0
ImagesAreOpen s = (x : Text) (t : Ty) → get s x ≡ some t → IsOpen t

text_eq-false : (a b : Text) → text_eq a b ≡ false → a ≢ b
text_eq-false a b h e = let q : text_eq a b ≡ true = ap (λ z. text_eq z b) e ∙ text_eq_refl b in cc

text_eq_sym_false : (a b : Text) → text_eq a b ≡ false → text_eq b a ≡ false
text_eq_sym_false a b h = elim (Bool-cases (text_eq b a)) [
  | inl e ↦ absurd (text_eq-false a b h (sym (text_eq→eq b a e)))
  | inr e ↦ e
]

module _ (e : Text × Ty) (es : Subst) (x : Text) where
  get-here : text_eq e.0 x ≡ true → get (e ∷ es) x ≡ some e.1
  unfolding get
  get-here h = rw (h)

  get-there : text_eq e.0 x ≡ false → get (e ∷ es) x ≡ get es x
  unfolding get
  get-there h = rw (h)

  put-here : (t : Ty) → text_eq e.0 x ≡ true → put (e ∷ es) x t ≡ (x, t) ∷ es
  unfolding put
  put-here t h = rw (h)

  put-there : (t : Ty) → text_eq e.0 x ≡ false → put (e ∷ es) x t ≡ e ∷ put es x t
  unfolding put
  put-there t h = rw (h)

get-head : (s : Subst) (x : Text) (t : Ty) → get ((x, t) ∷ s) x ≡ some t
get-head s x t = get-here (x, t) s x (text_eq_refl x)

pub get-put : (s : Subst) (x : Text) (t : Ty) → get (put s x t) x ≡ some t
get-put [] x t = unfold put in get-head [] x t
get-put (e ∷ es) x t = elim (Bool-cases (text_eq e.0 x)) [
  | inl h ↦ ap (λ z. get z x) (put-here e es x t h) ∙ get-head es x t
  | inr h ↦
      ap (λ z. get z x) (put-there e es x t h) ∙ (get-there e (put es x t) x h ∙ get-put es x t)
]

pub get-put_other :
    (s : Subst) (x y : Text) (t : Ty) → text_eq x y ≡ false → get (put s x t) y ≡ get s y
get-put_other [] x y t d = unfold put in get-there (x, t) [] y d
get-put_other (e ∷ es) x y t d = elim (Bool-cases (text_eq e.0 x)) [
  | inl h ↦
      let n = subst (λ z. text_eq z y ≡ false) (sym (text_eq→eq e.0 x h)) d in
      ap (λ z. get z y) (put-here e es x t h) ∙ (get-there (x, t) es y d ∙ sym (get-there e es y n))
  | inr h ↦ ap (λ z. get z y) (put-there e es x t h) ∙ elim (Bool-cases (text_eq e.0 y)) [
    | inl k ↦ get-here e (put es x t) y k ∙ sym (get-here e es y k)
    | inr k ↦ get-there e (put es x t) y k ∙ (get-put_other es x y t d ∙ sym (get-there e es y k))
  ]
]

-- What `occurs` found out at a variable that it passed.
hit-false :
    (go : Ty → Option Bool) (b : Bool) (u : Option Ty)
    → hit go b u ≡ some false
    → (b ≡ false) × ((u ≡ none) ⊎ ((t : Ty) × (u ≡ some t) × (go t ≡ some false)))
unfolding hit
hit-false go true u h = cc
hit-false go false none h = (refl, inl refl)
hit-false go false (some t) h = (refl, inr (t, refl, h))

-- A variable that is not `x` is accessible after the binding of `x`, if what its image has is.
passed :
    (s : Subst) (x y : Text) (u : Ty)
    → text_eq y x ≡ false
    → ((t : Ty) → get s y ≡ some t → (z : Text) → HasVar z t → Acc (Below (put s x u)) z)
    → Acc (Below (put s x u)) y
passed s x y u d f =
    Acc.intro y (λ z b. f b.0 (sym (get-put_other s x y u (text_eq_sym_false y x d)) ∙ b.1) z b.2)

-- A search of `occurs` that comes back empty has only met variables that stay accessible.
occurs-false :
    (n : ℕ) (x : Text) (s : Subst) (t u : Ty)
    → ImagesAreOpen s
    → IsOpen t
    → occurs n x s t ≡ some false
    → (y : Text) → HasVar y t
    → Acc (Below (put s x u)) y
unfolding occurs
occurs-false zero x s t u os ot h y v =
    let found = search-false (λ n. hit (λ u. none) (text_eq n x) (get s n)) t y ot h v in
    let (d, c) = hit-false (λ u. none) (text_eq y x) (get s y) found in
    passed s x y u d (λ w g z i. elim c [ inl q ↦ cc | inr q ↦ cc ])
occurs-false (suc n) x s t u os ot h y v =
    let found = search-false (λ n'. hit (occurs n x s) (text_eq n' x) (get s n')) t y ot h v in
    let (d, c) = hit-false (occurs n x s) (text_eq y x) (get s y) found in
    passed s x y u d (λ w g z i. elim c [
      | inl q ↦ cc
      | inr q ↦
          let e : occurs n x s w ≡ some false = cc in occurs-false n x s w u os (os y w g) e z i
    ])

-- With what the image of `x` has accessible, what was accessible stays so.
stays :
    (s : Subst) (x : Text) (t : Ty)
    → ((y : Text) → HasVar y t → Acc (Below (put s x t)) y)
    → (z : Text) → Acc (Below s) z
    → Acc (Below (put s x t)) z
stays s x t image_acc z (Acc.intro _ smaller) = Acc.intro z (λ y b.
    elim (Bool-cases (text_eq x z)) [
      | inl h ↦
          let q : get (put s x t) z ≡ some t =
            ap (get (put s x t)) (sym (text_eq→eq x z h)) ∙ get-put s x t in
          let e : b.0 ≡ t = cc in image_acc y (subst (HasVar y) e b.2)
      | inr h ↦ stays s x t image_acc y (smaller y (b.0, sym (get-put_other s x z t h) ∙ b.1, b.2))
    ])

put-ImagesAreOpen :
    (s : Subst) (x : Text) (t : Ty) → ImagesAreOpen s → IsOpen t → ImagesAreOpen (put s x t)
put-ImagesAreOpen s x t os ot y u g = elim (Bool-cases (text_eq x y)) [
  | inl h ↦
      let q : get (put s x t) y ≡ some t =
        ap (get (put s x t)) (sym (text_eq→eq x y h)) ∙ get-put s x t in
      let e : t ≡ u = cc in subst IsOpen e ot
  | inr h ↦ os y u (sym (get-put_other s x y t h) ∙ g)
]

-- The two ways in which `Bind` succeeds.
pub bind_var-cases :
    (n : ℕ) (s r : Subst) (x : Text) (t : Ty)
    → bind_var n s x t ≡ some (ok r)
    → (s ≡ r) ⊎ ((occurs n x s t ≡ some false) × (put s x t ≡ r))
unfolding bind_var
bind_var-cases n s r x t h = elim (Bool-cases (is_var x t)) [
  | inl e ↦ let q : bind_var n s x t ≡ some (ok s) = rw (e) in inl cc
  | inr e ↦ elim (Option-cases (occurs n x s t)) [
    | inl k ↦ let q : bind_var n s x t ≡ none = rw (e, k) in cc
    | inr (true, k) ↦ let q : bind_var n s x t ≡ some (err (occurs_check x t)) = rw (e, k) in cc
    | inr (false, k) ↦ let q : bind_var n s x t ≡ some (ok (put s x t)) = rw (e, k) in inr (k, cc)
  ]
]

-- `Bind` keeps bindings without a channel, stream, subscriber or future acyclic: if every image of
-- the map and the type are without these and no chain of bindings goes on for ever, then the same
-- holds of the map that a successful `Bind` leaves.
pub bind_var-IsAcyclic :
    (n : ℕ) (s r : Subst) (x : Text) (t : Ty)
    → ImagesAreOpen s
    → IsOpen t
    → IsAcyclic s
    → bind_var n s x t ≡ some (ok r)
    → IsAcyclic r × ImagesAreOpen r
bind_var-IsAcyclic n s r x t os ot acyclic h = elim (bind_var-cases n s r x t h) [
  | inl same ↦ subst (λ z. IsAcyclic z × ImagesAreOpen z) same (acyclic, os)
  | inr (free, same) ↦
      let below = occurs-false n x s t t os ot free in
      subst (λ z. IsAcyclic z × ImagesAreOpen z) same
        (λ z. stays s x t below z (acyclic z), put-ImagesAreOpen s x t os ot)
]
