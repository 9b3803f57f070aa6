-- ===== src/Etf/Total/Fuel.antt =====
-- etf/etf.go: `decoder.term` keeps within its fuel on every input whose compressed parts are nested
-- to a bounded depth.
use mochi_beam.Base.{
  ℕ, zero, suc, ◌+◌, ◌*◌, ◌^◌, ◌≤◌, ◌<◌, ◌≡◌, ◌≢◌, refl, ap, sym, ◌∙◌, [], ◌∷◌, ◌++◌, append_assoc,
  append-nil, arith, length, some, none, Option-cases, inl, inr, Bool-cases, ◌==◌,
}
use mochi_beam.Etf.Term.{Result, ok, out_of_fuel, Bytes, Term, tag_of, version_magic}
use mochi_beam.Etf.Decode.{Decoder, Read, Inflate, at, uint32, term, decode, decompress}
use mochi_beam.Etf.Total.Settles.{
  Settles, returned, raised, Advances, Advances-length, Advances-trans, Runs, Runs-bytes_, IsClosed,
  Settles-bind, Settles-map_err, Settles-weaken, byte_-shorter,
}
use mochi_beam.Etf.Total.Methods.{Runs-dispatch}

-- Below any position of the input, compressed payloads are nested at most `k` deep, and each
-- inflates to the length that was asked for.
abbrev pub IsNested : Inflate → ℕ → Bytes → Type 0
IsNested inflate zero bs = (xs ys : Bytes) (n : ℕ) → bs ≡ xs ++ ys → inflate ys n ≡ none
IsNested inflate (suc k) bs =
    (xs ys plain : Bytes) (n : ℕ)
    → bs ≡ xs ++ ys
    → inflate ys n ≡ some plain
    → (length plain ≡ n) × IsNested inflate k plain

-- The fuel that pays for what is left of the input.
record Budget (inflate : Inflate) (fuel : ℕ) (d : Decoder) : Type 0 where
  depth : ℕ
  nested : IsNested inflate depth d.rest
  paid : 2 ^ 32 * depth + length d.rest < fuel

IsNested-suffix :
    (inflate : Inflate) (k : ℕ) (bs xs ys : Bytes)
    → bs ≡ xs ++ ys
    → IsNested inflate k bs
    → IsNested inflate k ys
IsNested-suffix inflate zero bs xs ys e h =
    λ us vs n e'. h (xs ++ us) vs n (e ∙ (ap (λ r. xs ++ r) e' ∙ sym (append_assoc xs us vs)))
IsNested-suffix inflate (suc k) bs xs ys e h = λ us vs plain n e'.
    h (xs ++ us) vs plain n (e ∙ (ap (λ r. xs ++ r) e' ∙ sym (append_assoc xs us vs)))

module _ (inflate : Inflate) where
  Budget-closed : (fuel : ℕ) → IsClosed (Budget inflate fuel)
  Budget-closed fuel d d' a q = record {
    depth = q.depth;
    nested = IsNested-suffix inflate q.depth d.rest a.consumed d'.rest a.split q.nested;
    paid = omega (arith, q.paid, Advances-length d d' a);
  }

  -- The tag's byte pays for the unit of fuel that its term costs.
  Budget-spend :
      (fuel : ℕ) (d d' : Decoder)
      → Advances d d'
      → length d'.rest < length d.rest
      → Budget inflate (suc fuel) d
      → Budget inflate fuel d'
  Budget-spend fuel d d' a short q = record {
    depth = q.depth;
    nested = IsNested-suffix inflate q.depth d.rest a.consumed d'.rest a.split q.nested;
    paid = omega (arith, q.paid);
  }

  Budget-plain :
      (fuel : ℕ) (d : Decoder) (n : ℕ) (plain : Bytes)
      → n < 2 ^ 32
      → inflate d.rest n ≡ some plain
      → Budget inflate fuel d
      → Budget inflate fuel (at plain 0)
  Budget-plain fuel d n plain small e q = go q.depth q.nested q.paid
    where
      go :
          (k : ℕ)
          → IsNested inflate k d.rest
          → 2 ^ 32 * k + length d.rest < fuel
          → Budget inflate fuel (at plain 0)
      go zero h p = absurd (cc (h [] d.rest n refl, e))
      go (suc k) h p =
          let (l, deeper) = h [] d.rest plain n refl e in
          record { depth = k; nested = deeper; paid = omega (arith, l, p, small) }

uint32-small : (d : Decoder) → Settles (λ r. Advances d r.1 × (r.0 < 2 ^ 32)) (uint32 d)
unfolding uint32
uint32-small d =
    Settles-bind _ (Runs-bytes_ (λ _. Unit {0}) 4 d tt) (λ r a. returned (a, omega arith))

Runs-decompress :
    (inflate : Inflate) (fuel : ℕ) (t : Read Term)
    → Runs (Budget inflate fuel) t
    → Runs (Budget inflate fuel) (decompress inflate t)
unfolding decompress
Runs-decompress inflate fuel t inner d q =
    Settles-bind _ (Settles-map_err _ (uint32-small d)) λ r h.
      elim (Option-cases (inflate r.1.rest r.0)) [
        | inl failed ↦ rw failed raised
        | inr (plain, e) ↦ rw e (
            Settles-bind _
              (inner (at plain 0) (
                Budget-plain inflate fuel r.1 r.0 plain h.1 e
                  (Budget-closed inflate fuel d r.1 h.0 q)))
              λ s a. returned (
                Advances-trans d r.1 _ h.0 (record {
                  consumed = r.1.rest;
                  split = sym (append-nil r.1.rest);
                  moved = refl;
                })))
      ]

Runs-term : (inflate : Inflate) (fuel : ℕ) → Runs (Budget inflate fuel) (term inflate fuel)
unfolding term
Runs-term inflate zero d q = absurd (omega (arith, q.paid))
Runs-term inflate (suc fuel) d q = Settles-bind _ (Settles-map_err _ (byte_-shorter d)) λ r h.
    Settles-weaken
      (Runs-dispatch (Budget inflate fuel) (Budget-closed inflate fuel) (term inflate fuel)
        (Runs-term inflate fuel) inflate
        (Runs-decompress inflate fuel (term inflate fuel) (Runs-term inflate fuel)) (tag_of r.0) r.0
        r.1 (Budget-spend inflate fuel d r.1 h.0 h.1 q))
      λ s a. Advances-trans d r.1 s.1 h.0 a

-- With fuel for its input `term` returns or raises an error, and what it returns comes with a
-- cursor that has moved over the bytes in front.
pub term-Settles :
    (inflate : Inflate) (fuel : ℕ) (d : Decoder) (k : ℕ)
    → IsNested inflate k d.rest
    → 2 ^ 32 * k + length d.rest < fuel
    → Settles (λ r. Advances d r.1) (term inflate fuel d)
term-Settles inflate fuel d k h p =
    Runs-term inflate fuel d (record { depth = k; nested = h; paid = p })

Settles-ne-out_of_fuel {ℓ κ} :
    {A : Type ℓ} {P : A → Type κ} {r : Result A} → Settles P r → r ≢ out_of_fuel
Settles-ne-out_of_fuel (returned h) = cc
Settles-ne-out_of_fuel raised = cc

-- `Decode` ends on every input whose compressed payloads are nested at most `k` deep: a fuel above
-- the input's length and 2 ^ 32 for each level is enough.
pub decode-ne-out_of_fuel :
    (inflate : Inflate) (fuel : ℕ) (bs : Bytes) (k : ℕ)
    → IsNested inflate k bs
    → 2 ^ 32 * k + length bs ≤ fuel
    → decode inflate fuel bs ≢ out_of_fuel
unfolding decode
decode-ne-out_of_fuel inflate fuel [] k h p = cc
decode-ne-out_of_fuel inflate fuel (b ∷ bs) k h p = elim (Bool-cases (length bs == 0)) [
  | inl short ↦ rw short (λ e. cc)
  | inr long ↦ rw long (elim (Bool-cases (b == version_magic)) [
    | inl magic ↦ rw magic (
        Settles-ne-out_of_fuel (
          Settles-bind {Q = λ (v : Term). Unit {0}} (λ r. ok r.0)
            (term-Settles inflate fuel (at bs 1) k
              (IsNested-suffix inflate k (b ∷ bs) (b ∷ []) bs refl h) (omega arith))
            λ r a. returned tt))
    | inr other ↦ rw other (λ e. cc)
  ])
]
