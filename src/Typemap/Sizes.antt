-- ===== src/Typemap/Sizes.antt =====
-- typemap/typemap.go: the sizes of terms, and the runs that are not cut off.
use mochi_beam.Base.{
  ℕ, zero, suc, ◌+◌, ◌≤◌, ◌≡◌, ◌≢◌, refl, ap, Bool, true, false, Option, some, none, arith, [], ◌∷◌,
  if◌then◌else◌,
}
use mochi_beam.Base.Results.{ok, err, ◌>>=◌}
use mochi_beam.Etf.Term.{Term, Terms, done, more, tuple, list, atom}
use mochi_beam.Etf.Term as Term
use mochi_beam.Typemap.Types as Types
use mochi_beam.Typemap.Types.{
  MochiType, TranslateResult, TypeError, Translated, unfinished, Detail, Malformed, terms_length,
}
use mochi_beam.Typemap.Reasons.{SkipReason}
use mochi_beam.Typemap.Translate.{
  Go, term_at, list_or_empty, map_skip, each_text, or_nothing, match_ok_elems, typed_elems, choose,
  second_match,
}

-- The number of terms in a term.
abbrev mutual
  pub size : Term.Term → ℕ
  size (tuple ts) = suc (sizes ts)
  size (list ts) = suc (sizes ts)
  size _ = 1

  pub sizes : Terms → ℕ
  sizes done = 0
  sizes (more t ts) = size t + sizes ts

-- The run is not cut off.
abbrev pub Ends : {A : Type 0} → Translated A → Type 0
Ends o = o ≢ err unfinished

pub Ends-ok : {A : Type 0} (a : A) → Ends {A = A} (ok a)
Ends-ok a h = cc

pub Ends-skip : {A : Type 0} (r : SkipReason) (d : Detail) → Ends {A = A} (err (Types.skip r d))
Ends-skip r d h = cc

pub Ends-malformed : {A : Type 0} (m : Malformed) → Ends {A = A} (err (Types.malformed m))
Ends-malformed m h = cc

pub Ends->>= :
    {A B : Type 0} (o : Translated A) (f : A → Translated B)
    → Ends o
    → ((a : A) → Ends (f a))
    → Ends (o >>= f)
Ends->>= (ok a) f h g = g a
Ends->>= (err e) f h g = λ k. h (let q : e ≡ unfinished = cc in ap err q)

pub Ends-if :
    {A : Type 0} (b : Bool) (x y : Translated A) → Ends x → Ends y → Ends (if b then x else y)
Ends-if true x y f g = f
Ends-if false x y f g = g

-- Terms of at most this size are translated.
abbrev pub Within : ℕ → Go → Type 0
Within n go = (t : Term.Term) → size t ≤ n → Ends (go t)

pub sizes-list_or_empty : (t : Term.Term) → sizes (list_or_empty t) ≤ size t
sizes-list_or_empty (list ts) = omega arith
sizes-list_or_empty _ = omega arith

-- The members of a member, and a list's members of it, are within the slice.
pub sizes-term_at : (ts : Terms) (i : ℕ) → sizes (list_or_empty (term_at ts i)) ≤ sizes ts
unfolding term_at
sizes-term_at done i = omega arith
sizes-term_at (more t ts) zero = let h = sizes-list_or_empty t in omega arith
sizes-term_at (more t ts) (suc i) = let h = sizes-term_at ts i in omega arith

pub each_text-Ends :
    (n : ℕ) (go : Go) (ts : Terms) → Within n go → sizes ts ≤ n → Ends (each_text go ts)
unfolding each_text
each_text-Ends n go done w b = Ends-ok []
each_text-Ends n go (more t ts) w b = Ends->>= (go t) _ (w t (omega arith)) (λ r.
    Ends->>= (each_text go ts) _ (each_text-Ends n go ts w (omega arith))
      (λ rs. Ends-ok (Types.result_text r ∷ rs)))

pub map_skip-Ends :
    {A : Type 0} (f : TypeError → Detail) (o : Translated A) → Ends o → Ends (map_skip f o)
map_skip-Ends f (ok a) h = λ k. cc
map_skip-Ends f (err unfinished) h = h
map_skip-Ends f (err (Types.skip r d)) h = λ k. cc
map_skip-Ends f (err Types.too_deep) h = λ k. cc
map_skip-Ends f (err (Types.malformed m)) h = λ k. cc

pub or_nothing-Ends : (o : Translated TranslateResult) → Ends o → Ends (or_nothing o)
or_nothing-Ends (ok a) h = λ k. cc
or_nothing-Ends (err unfinished) h = absurd (h refl)
or_nothing-Ends (err (Types.skip r d)) h = λ k. cc
or_nothing-Ends (err Types.too_deep) h = λ k. cc
or_nothing-Ends (err (Types.malformed m)) h = λ k. cc

abbrev pub option_sizes : Option Terms → ℕ
option_sizes none = 0
option_sizes (some ts) = sizes ts

pub match_ok_elems-Ends :
    (n : ℕ) (go : Go) (o : Option Terms)
    → Within n go
    → option_sizes o ≤ n
    → Ends (match_ok_elems go o)
unfolding match_ok_elems
match_ok_elems-Ends n go none w b = λ h. cc
match_ok_elems-Ends n go (some done) w b = λ h. cc
match_ok_elems-Ends n go (some (more e done)) w b = λ h. cc
match_ok_elems-Ends n go (some (more e (more t done))) w b =
    Ends-if _ (or_nothing (go t)) (ok none) (or_nothing-Ends (go t) (w t (omega arith)))
      (Ends-ok none)
match_ok_elems-Ends n go (some (more e (more t (more u ts)))) w b = λ h. cc

pub if_le :
    (n : ℕ) (b : Bool) (x y : Option Terms)
    → option_sizes x ≤ n
    → option_sizes y ≤ n
    → option_sizes (if b then x else y) ≤ n
if_le n true x y f g = f
if_le n false x y f g = g

pub option_sizes-typed_elems : (t : Term.Term) → option_sizes (typed_elems t) ≤ size t
unfolding typed_elems
option_sizes-typed_elems (tuple ts) =
    let h = sizes-term_at ts 3 in
    if_le (suc (sizes ts)) _ (some (list_or_empty (term_at ts 3))) none (omega arith) (omega arith)
option_sizes-typed_elems _ = omega arith

pub second_match-Ends : (x : Option TranslateResult) (e : Bool) → Ends (second_match x e)
unfolding second_match
second_match-Ends none e = λ h. cc
second_match-Ends (some r) true = λ h. cc
second_match-Ends (some r) false = λ h. cc

pub choose-Ends :
    (x y : Translated (Option TranslateResult)) (a b : Bool)
    → Ends x
    → Ends y
    → Ends (choose x y a b)
unfolding choose
choose-Ends (err e) y a b h k = λ q. h (let p : e ≡ unfinished = cc in ap err p)
choose-Ends (ok none) y a b h k = Ends->>= y _ k (λ s. second_match-Ends s a)
choose-Ends (ok (some r)) y a true h k = λ q. cc
choose-Ends (ok (some r)) y a false h k = Ends->>= y _ k (λ s. second_match-Ends s a)
