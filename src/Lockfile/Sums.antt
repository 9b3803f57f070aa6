-- ===== src/Lockfile/Sums.antt =====
-- lockfile/check.go: when `CheckAll` finds nothing.
use mochi_beam.Base.{
  ℕ, ◌≡◌, ◌⊎◌, ◌↔◌, refl, subst, Bool, true, false, not, [], ◌∷◌, ◌++◌, ◌==◌, length, List, Option,
  some, none, inl, inr, Bool-cases, suc-==-zero, All,
}
use mochi_beam.Text.Chars.{Text, text_eq, text_eq→eq, text_eq_refl}
use mochi_beam.Lockfile.Entry.{Entry, Manifest}
use mochi_beam.Lockfile.Check.{
  Dict, look_up, CheckInput, Sum, Mismatch, compare_sum, if_given, check, record_failures,
  check_found, check_from, check_all, compute_beam_ingest_sha256, outer_256, inner_256, inner_512,
  beam_256, shim_256, truncate,
}

-- A sum that is recorded is the one computed, where there is something to compute it from.
abbrev pub Agrees : Bool → Text → Text → Type 0
Agrees given want got = given ≡ true → (want ≡ []) ⊎ (want ≡ got)

module _ (f : Sum) (c : ℕ) (want got : Text) where
  compare_sum-same : text_eq (c ∷ want) got ≡ true → compare_sum f (c ∷ want) got ≡ []
  unfolding compare_sum
  compare_sum-same e = rw (e, suc-==-zero (length want))

  compare_sum-other :
      text_eq (c ∷ want) got ≡ false
      → compare_sum f (c ∷ want) got
        ≡ record { checked = f; want = truncate (c ∷ want) 16; got = truncate got 16 } ∷ []
  unfolding compare_sum
  compare_sum-other e = rw (e, suc-==-zero (length want))

compare_sum-nil :
    (f : Sum) (want got : Text) → (compare_sum f want got ≡ []) ↔ ((want ≡ []) ⊎ (want ≡ got))
unfolding compare_sum
compare_sum-nil f [] got = (λ _. inl refl, λ _. refl)
compare_sum-nil f (c ∷ want) got = elim (Bool-cases (text_eq (c ∷ want) got)) [
  | inl e ↦ (λ _. inr (text_eq→eq (c ∷ want) got e), λ _. compare_sum-same f c want got e)
  | inr e ↦ (
    λ h. let q = compare_sum-other f c want got e in cc,
    λ h. elim h [
      | inl x ↦ cc
      | inr x ↦
          let q = text_eq_refl (c ∷ want) in
          let r = subst (λ z. text_eq (c ∷ want) z ≡ true) x q in cc
    ],
  )
]

if_given-nil :
    (given : Bool) (f : Sum) (want got : Text)
    → (if_given given (compare_sum f want got) ≡ []) ↔ Agrees given want got
if_given-nil true f want got =
    (λ h _. (compare_sum-nil f want got).0 h, λ h. (compare_sum-nil f want got).1 (h refl))
if_given-nil false f want got = (λ h q. cc, λ h. refl)

append-nil_iff {ℓ} : {A : Type ℓ} (xs ys : List A) → ((xs ++ ys) ≡ []) ↔ ((xs ≡ []) × (ys ≡ []))
append-nil_iff [] ys = (λ h. (refl, h), λ h. h.1)
append-nil_iff (x ∷ xs) ys = (λ h. cc, λ h. let q = h.0 in cc)

append_iff {ℓ} :
    {A : Type ℓ} {P Q : Type 0} (xs ys : List A)
    → ((xs ≡ []) ↔ P)
    → ((ys ≡ []) ↔ Q)
    → ((xs ++ ys) ≡ []) ↔ (P × Q)
append_iff xs ys p q = (
  λ h. let b = (append-nil_iff xs ys).0 h in (p.0 b.0, q.0 b.1),
  λ h. (append-nil_iff xs ys).1 (p.1 h.0, q.1 h.1),
)

if_given-append :
    {P Q : Type 0} (given : Bool) (xs ys : List Mismatch)
    → ((if_given given xs ≡ []) ↔ P)
    → ((if_given given ys ≡ []) ↔ Q)
    → (if_given given (xs ++ ys) ≡ []) ↔ (P × Q)
if_given-append true xs ys p q = append_iff xs ys p q
if_given-append false xs ys p q = append_iff [] [] p q

module _ (sha256 sha512 : Text → Text) where
  -- Every recorded sum of the entry agrees with the input.
  abbrev pub Verified : Entry → CheckInput → Type 0
  Verified e i =
      Agrees (not (length i.outer_tarball == 0)) e.outer_sha256 (sha256 i.outer_tarball)
      × Agrees (not (length i.inner_tarball == 0)) e.inner_sha256 (sha256 i.inner_tarball)
      × Agrees (not (length i.inner_tarball == 0)) e.inner_sha512 (sha512 i.inner_tarball)
      × Agrees (not (length i.beam_chunks == 0)) e.beam_ingest_sha256
          (compute_beam_ingest_sha256 sha256 sha512 i.beam_chunks)
      × Agrees (not (length i.shim_content == 0)) e.shim_sha256 (sha256 i.shim_content)

  check-nil : (e : Entry) (i : CheckInput) → (check sha256 sha512 e i ≡ []) ↔ Verified e i
  unfolding check
  check-nil e i =
      let outer = not (length i.outer_tarball == 0) in
      let inner = not (length i.inner_tarball == 0) in
      let beam = not (length i.beam_chunks == 0) in
      let shim = not (length i.shim_content == 0) in
      let a = if_given-nil outer outer_256 e.outer_sha256 (sha256 i.outer_tarball) in
      let b = if_given-nil inner inner_256 e.inner_sha256 (sha256 i.inner_tarball) in
      let c = if_given-nil inner inner_512 e.inner_sha512 (sha512 i.inner_tarball) in
      let d =
        if_given-nil beam beam_256 e.beam_ingest_sha256
          (compute_beam_ingest_sha256 sha256 sha512 i.beam_chunks) in
      let f = if_given-nil shim shim_256 e.shim_sha256 (sha256 i.shim_content) in
      let inside = if_given-append inner _ _ b c in
      let all = append_iff _ _ (append_iff _ _ (append_iff _ _ a inside) d) f in
      (
        λ h. let g = all.0 h in (g.0.0.0, g.0.0.1.0, g.0.0.1.1, g.0.1, g.1),
        λ h. all.1 (((h.0, (h.1, h.2)), h.3), h.4),
      )

  record_failures-true :
      (name : Text) (fs : List Mismatch) (r : Bool × Dict (List Mismatch))
      → ((record_failures sha256 sha512 name fs r).0 ≡ true) ↔ ((fs ≡ []) × (r.0 ≡ true))
  record_failures-true name [] r = (λ h. (refl, h), λ h. h.1)
  record_failures-true name (f ∷ fs) r = (λ h. cc, λ h. let q = h.0 in cc)

  -- What `CheckAll` looks at: the entries for which there is an input.
  abbrev pub VerifiedIn : Dict CheckInput → Entry → Type 0
  VerifiedIn inputs e = (i : CheckInput) → look_up inputs e.name ≡ some i → Verified e i

  check_found-true :
      (e : Entry) (o : Option CheckInput) (r : Bool × Dict (List Mismatch))
      → ((check_found sha256 sha512 e o r).0 ≡ true)
        ↔ (((i : CheckInput) → o ≡ some i → Verified e i) × (r.0 ≡ true))
  check_found-true e none r = (λ h. (λ i q. cc, h), λ h. h.1)
  check_found-true e (some i) r =
      let f = record_failures-true e.name (check sha256 sha512 e i) r in
      (
        λ h.
            let g = f.0 h in
            (λ j q. let s : i ≡ j = cc in subst (Verified e) s ((check-nil e i).0 g.0), g.1),
        λ h. f.1 ((check-nil e i).1 (h.0 i refl), h.1),
      )

  check_from-true :
      (es : List Entry) (inputs : Dict CheckInput) (r : Bool × Dict (List Mismatch))
      → ((check_from sha256 sha512 es inputs r).0 ≡ true)
        ↔ (All (VerifiedIn inputs) es × (r.0 ≡ true))
  unfolding check_from
  check_from-true [] inputs r = (λ h. (tt, h), λ h. h.1)
  check_from-true (e ∷ es) inputs r =
      let next = check_found sha256 sha512 e (look_up inputs e.name) r in
      let f = check_from-true es inputs next in
      let g = check_found-true e (look_up inputs e.name) r in
      (
        λ h. let x = f.0 h in let y = g.0 x.1 in ((y.0, x.0), y.1),
        λ h. f.1 (h.0.1, g.1 (h.0.0, h.1)),
      )

  -- `CheckAll` reports success exactly if every entry that has an input is verified: each of its five
  -- sums that is recorded is the hash of the part of the input it belongs to, for those parts that
  -- are not empty.
  pub check_all-true :
      (m : Manifest) (inputs : Dict CheckInput)
      → ((check_all sha256 sha512 m inputs).0 ≡ true) ↔ All (VerifiedIn inputs) m.entries
  unfolding check_all
  check_all-true m inputs =
      let f = check_from-true m.entries inputs (true, []) in (λ h. (f.0 h).0, λ h. f.1 (h, refl))
