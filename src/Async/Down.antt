-- ===== src/Async/Down.antt =====
-- async/monitor.go: which terms are read as a message that a monitored process went down, and which
-- replies unlink accepts.
use mochi_beam.Base.{
  ◌≡◌, ◌↔◌, refl, sym, ap, subst, true, none, some, Bool-cases, Option-cases, inl, inr,
}
use mochi_beam.Text.Chars.{codes, text_eq, text_eq→eq}
use mochi_beam.Etf.Term.{Bytes, Term, done, more, Pid, Reference}
use mochi_beam.Async.Mailbox.{is_atom}
use mochi_beam.Async.Process.{DownMessage, as_pid, as_reference, down_of, parse_down_message}

-- `{'DOWN', Ref, process, Pid, Reason}`.
abbrev pub down_term : DownMessage → Term
down_term d = Term.tuple (
    more (Term.atom (codes "DOWN")) (
      more (Term.reference d.ref)
        (more (Term.atom (codes "process")) (more (Term.pid d.pid) (more d.reason done)))))

pub is_atom-inverse : (v : Term) (a : Bytes) → is_atom v a ≡ true → v ≡ Term.atom a
unfolding is_atom
is_atom-inverse (Term.atom b) a h = ap Term.atom (text_eq→eq b a h)
is_atom-inverse v a h = cc

as_pid-inverse : (v : Term) (p : Pid) → as_pid v ≡ some p → v ≡ Term.pid p
as_pid-inverse (Term.pid q) p h = cc
as_pid-inverse v p h = cc

as_reference-inverse : (v : Term) (p : Reference) → as_reference v ≡ some p → v ≡ Term.reference p
as_reference-inverse (Term.reference q) p h = cc
as_reference-inverse v p h = cc

down_of-inverse :
    (t r w p reason : Term) (d : DownMessage)
    → down_of t r w p reason ≡ some d
    → Term.tuple (more t (more r (more w (more p (more reason done))))) ≡ down_term d
unfolding down_of
down_of-inverse t r w p reason d h = elim (Bool-cases (is_atom t (codes "DOWN"))) [
  | inr e ↦ let q : down_of t r w p reason ≡ none = rw (e) in cc
  | inl e ↦ elim (Option-cases (as_reference r)) [
    | inl n ↦ let q : down_of t r w p reason ≡ none = rw (e, n) in cc
    | inr x ↦ elim (Bool-cases (is_atom w (codes "process"))) [
      | inr f ↦ let q : down_of t r w p reason ≡ none = rw (e, x.1, f) in cc
      | inl f ↦ elim (Option-cases (as_pid p)) [
        | inl n ↦ let q : down_of t r w p reason ≡ none = rw (e, x.1, f, n) in cc
        | inr y ↦
            let q : down_of t r w p reason
                ≡ some (record { ref = x.0; pid = y.0; reason = reason }) =
              rw (e, x.1, f, y.1) in
            let s : record { ref = x.0; pid = y.0; reason = reason } ≡ d = cc in
            rw
              (
                is_atom-inverse t (codes "DOWN") e,
                as_reference-inverse r x.0 x.1,
                is_atom-inverse w (codes "process") f,
                as_pid-inverse p y.0 y.1,
              )
              (ap down_term s)
      ]
    ]
  ]
]

parse-inverse : (v : Term) (d : DownMessage) → parse_down_message v ≡ some d → v ≡ down_term d
unfolding parse_down_message
parse-inverse (Term.tuple (more t (more r (more w (more p (more reason done)))))) d h =
    down_of-inverse t r w p reason d h
parse-inverse v d h = cc

-- `ParseDownMessage` accepts exactly the terms `{'DOWN', Ref, process, Pid, Reason}`, and returns
-- their reference, pid and reason.
pub parse_down_message_iff :
    (v : Term) (d : DownMessage) → (parse_down_message v ≡ some d) ↔ (v ≡ down_term d)
unfolding parse_down_message down_of is_atom text_eq
parse_down_message_iff v d =
    (parse-inverse v d, λ e. subst (λ x. parse_down_message x ≡ some d) (sym e) refl)
