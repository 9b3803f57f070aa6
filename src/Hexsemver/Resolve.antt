-- ===== src/Hexsemver/Resolve.antt =====
-- hexsemver/hexsemver.go: what `Matches` and `BestMatch` promise.
use mochi_beam.Base.{
  ◌≡◌, ◌≢◌, ◌⊎◌, inl, inr, refl, ap, sym, ◌∙◌, Bool, true, false, ◌&&◌, List, [], ◌∷◌, none, some,
  arith, Bool-cases, All,
}
use mochi_beam.Text.Order.{Sign-cases, Sign, above, flip}
use mochi_beam.Hexsemver.Version.{Version, compare_version}
use mochi_beam.Hexsemver.Constraint.{Constraint, satisfies, better, best_from, best_match, is_above}
use mochi_beam.Hexsemver.Order.{compare_version-Chains, compare_version-flip, compare_version_self}

-- `v` is not above `best`.
abbrev pub IsAtMost : Version → Version → Type 0
IsAtMost v w = compare_version v w ≢ above

IsAtMost-refl : (v : Version) → IsAtMost v v
IsAtMost-refl v e = cc (compare_version_self v)

IsAtMost-trans : (v w u : Version) → IsAtMost v w → IsAtMost w u → IsAtMost v u
IsAtMost-trans v w u h k e = elim (Sign-cases (compare_version v w)) [
  | inl lower ↦ k (
      compare_version-flip u w
      ∙ ap flip ((compare_version-Chains u v w).0 (compare_version-flip v u ∙ ap flip e) lower))
  | inr (inl equal) ↦ k (sym ((compare_version-Chains v w u).1 equal) ∙ e)
  | inr (inr higher) ↦ h higher
]

-- `v` is one of the versions.
abbrev pub Among : Version → List Version → Type 0
Among v [] = ⊥
Among v (w ∷ ws) = (v ≡ w) ⊎ Among v ws

-- `best` is one of the candidates, satisfies the requirements, and no candidate that satisfies them
-- is above it.
pub record IsBest (r : List Constraint) (candidates : List Version) (best : Version) : Type 0 where
  pub among : Among best candidates
  pub fits : satisfies r best ≡ true
  pub top : All (λ v. satisfies r v ≡ true → IsAtMost v best) candidates

-- The loop from a version found earlier ends with one that is as high and covers the candidates.
record Improves (r : List Constraint) (found : Version) (candidates : List Version) (best : Version)
    : Type 0 where
  origin : (best ≡ found) ⊎ Among best candidates
  fits : satisfies r best ≡ true
  higher : IsAtMost found best
  top : All (λ v. satisfies r v ≡ true → IsAtMost v best) candidates

and-left : (a b : Bool) → (a && b) ≡ true → a ≡ true
and-left a b h = ground arith

and-right : (a b : Bool) → (a && b) ≡ true → b ≡ true
and-right a b h = ground arith

is_above→eq : (x : Sign) → is_above x ≡ true → x ≡ above
is_above→eq x h = ground arith

keep_origin {ℓ κ ℓ'} : {A : Type ℓ} {B : Type κ} (C : Type ℓ') → A ⊎ B → A ⊎ (C ⊎ B)
keep_origin C (inl a) = inl a
keep_origin C (inr b) = inr (inr b)

best_from-Improves :
    (r : List Constraint) (vs : List Version) (found : Version)
    → satisfies r found ≡ true
    → (best : Version) × (best_from r (some found) vs ≡ some best) × Improves r found vs best
unfolding best_from better
best_from-Improves r [] found h =
    (found, refl, record { origin = inl refl; fits = h; higher = IsAtMost-refl found; top = tt })
best_from-Improves r (v ∷ vs) found h =
    elim (Bool-cases (satisfies r v && is_above (compare_version v found))) [
      | inl replaced ↦
          let (best, e, i) = best_from-Improves r vs v (and-left (satisfies r v) _ replaced) in
          let above_found =
            is_above→eq (compare_version v found) (and-right (satisfies r v) _ replaced) in
          let found_below : IsAtMost found v =
            λ k. cc (compare_version-flip v found, above_found, k) in
          (
            best,
            rw replaced e,
            record {
              origin = inr i.origin;
              fits = i.fits;
              higher = IsAtMost-trans found v best found_below i.higher;
              top = (λ _. i.higher, i.top);
            },
          )
      | inr kept ↦
          let (best, e, i) = best_from-Improves r vs found h in
          (
            best,
            rw kept e,
            record {
              origin = keep_origin (best ≡ v) i.origin;
              fits = i.fits;
              higher = i.higher;
              top = (λ fits. IsAtMost-trans v found best (λ k. cc (kept, fits, k)) i.higher, i.top);
            },
          )
    ]

best_from-none :
    (r : List Constraint) (vs : List Version)
    → ((best : Version) × (best_from r none vs ≡ some best) × IsBest r vs best)
      ⊎ ((best_from r none vs ≡ none) × All (λ v. satisfies r v ≡ false) vs)
unfolding best_from better
best_from-none r [] = inr (refl, tt)
best_from-none r (v ∷ vs) = elim (Bool-cases (satisfies r v)) [
  | inl fits ↦
      let (best, e, i) = best_from-Improves r vs v fits in
      inl
        (best, rw fits e, record { among = i.origin; fits = i.fits; top = (λ _. i.higher, i.top) })
  | inr skipped ↦ elim (best_from-none r vs) [
    | inl (best, e, i) ↦ inl (
      best,
      rw skipped e,
      record { among = inr i.among; fits = i.fits; top = (λ fits k. cc (skipped, fits), i.top) },
    )
    | inr (e, none_fits) ↦ inr (rw skipped e, (skipped, none_fits))
  ]
]

-- `BestMatch` finds the highest candidate that satisfies the requirements: what it returns is one
-- of the candidates, satisfies them, and no candidate that does is above it; and it returns none
-- only if no candidate satisfies them.
pub best_match_lem :
    (r : List Constraint) (vs : List Version)
    → ((best : Version) × (best_match r vs ≡ some best) × IsBest r vs best)
      ⊎ ((best_match r vs ≡ none) × All (λ v. satisfies r v ≡ false) vs)
unfolding best_match
best_match_lem r vs = best_from-none r vs
