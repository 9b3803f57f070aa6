-- ===== src/Async/Accepts.antt =====
-- async/monitor.go: which replies the calls accept that expect `true` or `ok`.
use mochi_beam.Base.{
  ◌≡◌, ◌↔◌, refl, sym, ap, subst, ◌∙◌, Option, none, some, Bool-cases, ◌⊎◌, inl, inr,
}
use mochi_beam.Base.Results.{Result, ok, err, ◌>>=◌}
use mochi_beam.Text.Chars.{codes, text_eq, text_eq→eq}
use mochi_beam.Etf.Term.{Bytes, Term, Terms, done, more, Pid}
use mochi_beam.Async.Mailbox.{is_atom, expect_ok, ReplyError, erlang_error, unexpected_reply}
use mochi_beam.Async.Process.{CallError, failed_call, bad_reply, expect, expect_true, link, unlink}
use mochi_beam.Async.Down.{is_atom-inverse}

-- A reply that is an atom, `true` or `ok`.
abbrev pub IsAccepted : Term → Type 0
IsAccepted v = (v ≡ Term.atom (codes "true")) ⊎ (v ≡ Term.atom (codes "ok"))

expect_ok-inverse : (v : Term) → expect_ok v ≡ none → v ≡ Term.atom (codes "ok")
unfolding expect_ok is_atom
expect_ok-inverse (Term.tuple (more t (more r done))) h =
    elim (Bool-cases (is_atom t (codes "error"))) [
      | inl e ↦
          let q : expect_ok (Term.tuple (more t (more r done))) ≡ some (erlang_error r) = rw (e) in
          cc
      | inr e ↦
          let q : expect_ok (Term.tuple (more t (more r done)))
              ≡ some (unexpected_reply (Term.tuple (more t (more r done)))) =
            rw (e) in
          cc
    ]
expect_ok-inverse (Term.atom b) h = elim (Bool-cases (text_eq b (codes "ok"))) [
  | inl e ↦ ap Term.atom (text_eq→eq b (codes "ok") e)
  | inr e ↦ let q : expect_ok (Term.atom b) ≡ some (unexpected_reply (Term.atom b)) = rw (e) in cc
]
expect_ok-inverse v h = cc

module _ {E : Type 0} (caller : Bytes → Terms → Result E Term) where
  expect-inverse :
      (v : Term) (o : Option ReplyError)
      → expect_ok v ≡ o
      → expect caller v ≡ ok tt
      → v ≡ Term.atom (codes "ok")
  expect-inverse v none ho h = expect_ok-inverse v ho
  expect-inverse v (some e) ho h =
      let q : expect caller v ≡ err (bad_reply e) = rw (ho, expect) in cc

  expect_true-inverse : (v : Term) → expect_true caller v ≡ ok tt → IsAccepted v
  unfolding expect_true
  expect_true-inverse v h = elim (Bool-cases (is_atom v (codes "true"))) [
    | inl e ↦ inl (is_atom-inverse v (codes "true") e)
    | inr e ↦
        let q : expect_true caller v ≡ expect caller v = rw (e) in
        inr (expect-inverse v (expect_ok v) refl (sym q ∙ h))
  ]

  expect_true-accepted : (v : Term) → IsAccepted v → expect_true caller v ≡ ok tt
  unfolding expect_true expect_ok is_atom text_eq
  expect_true-accepted v (inl e) = rw (e)
  expect_true-accepted v (inr e) = rw (e)

  -- A call whose reply goes to `expect_true`.
  called : (r : Result E Term) → Result {0, 0} (CallError E) Unit
  called r = (elim r [ ok v ↦ ok v | err e ↦ err (failed_call e) ]) >>= expect_true caller

  called_iff : (r : Result E Term) → (called r ≡ ok tt) ↔ ((v : Term) × (r ≡ ok v) × IsAccepted v)
  unfolding called
  called_iff (ok v) = (
    (λ h. (v, refl, expect_true-inverse v h)),
    λ p. let e : p.0 ≡ v = cc in expect_true-accepted v (subst IsAccepted e p.2),
  )
  called_iff (err e) = ((λ h. cc), λ p. cc)

  -- `Link` and `Unlink` return no error exactly if the call is answered by the atom `true` or `ok`.
  pub link-unlink_iff :
      (pid : Pid)
      → ((link caller pid ≡ ok tt) ↔ (
          (v : Term) × (caller (codes "erlang:link") (more (Term.pid pid) done) ≡ ok v)
          × IsAccepted v))
        × ((unlink caller pid ≡ ok tt) ↔ (
            (v : Term) × (caller (codes "erlang:unlink") (more (Term.pid pid) done) ≡ ok v)
            × IsAccepted v))
  unfolding link unlink called
  link-unlink_iff pid = (
    called_iff (caller (codes "erlang:link") (more (Term.pid pid) done)),
    called_iff (caller (codes "erlang:unlink") (more (Term.pid pid) done)),
  )
