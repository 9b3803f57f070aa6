-- ===== src/Types/Loops.antt =====
-- internal/types/subst.go: the bindings that the occurs check lets through.
use mochi_beam.Base.{ℕ, zero, suc, ◌≡◌, ap, ◌∙◌, false, [], ◌∷◌, none, some}
use mochi_beam.Base.Results.{ok}
use mochi_beam.Text.Chars.{Text, text_eq_refl}
use mochi_beam.Types.Kinds.{Wrap, wrap, var}
use mochi_beam.Types.Subst.{
  Subst, get, put, walk, image, apply, search, occurs, is_searched, bind_var, ◌>>=◌,
}

module _ (k : Wrap) (x : Text) where
  abbrev loop : Subst
  loop = (x, wrap k (var x)) ∷ []

  get-loop : get loop x ≡ some (wrap k (var x))
  unfolding get
  get-loop = rw (text_eq_refl x)

  apply-wrap : (n : ℕ) → apply n loop (var x) ≡ none → apply n loop (wrap k (var x)) ≡ none
  unfolding apply walk
  apply-wrap zero h = ap (λ z. z >>= (λ y. some (wrap k y))) h
  apply-wrap (suc n) h = ap (λ z. z >>= (λ y. some (wrap k y))) h

  apply-loop : (n : ℕ) → apply n loop (var x) ≡ none
  unfolding apply walk image
  apply-loop zero = ap (image (λ u. none) x) get-loop
  apply-loop (suc n) = ap (image (apply n loop) x) get-loop ∙ apply-wrap n (apply-loop n)

occurs-unsearched :
    (m : ℕ) (k : Wrap) (x : Text) (s : Subst)
    → is_searched k ≡ false
    → occurs m x s (wrap k (var x)) ≡ some false
unfolding occurs search
occurs-unsearched zero k x s h = rw (h)
occurs-unsearched (suc m) k x s h = rw (h)

-- The occurs check does not look into channels, streams, subscribers and futures: `Bind` binds a
-- variable to one of these over the variable itself, and then `Apply` never ends on the variable,
-- whatever the number of nested bindings.
pub apply-bind_loop :
    (k : Wrap) (x : Text) (m n : ℕ)
    → is_searched k ≡ false
    → (r : Subst) × (bind_var m [] x (wrap k (var x)) ≡ some (ok r)) × (apply n r (var x) ≡ none)
unfolding bind_var put
apply-bind_loop k x m n h = (loop k x, rw (occurs-unsearched m k x [] h), apply-loop k x n)
