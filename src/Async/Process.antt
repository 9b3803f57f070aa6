-- ===== src/Async/Process.antt =====
-- async/process.go and async/monitor.go: the calls to Erlang processes and the reading of replies.
use mochi_beam.Base.{Bool, true, false, Option, none, some, if◌then◌else◌}
use mochi_beam.Base.Results.{Result, ok, err, ◌>>=◌}
use mochi_beam.Text.Chars.{codes}
use mochi_beam.Etf.Term.{Bytes, Term, Terms, done, more, Pid, Reference}
use mochi_beam.Async.Mailbox.{is_atom, expect_ok, ReplyError, unexpected_reply}

pub record DownMessage : Type 0 where
  pub ref : Reference
  pub pid : Pid
  pub reason : Term

-- `v.(etf.Pid)` and `v.(etf.Reference)`.
abbrev pub as_pid : Term → Option Pid
as_pid (Term.pid p) = some p
as_pid _ = none

abbrev pub as_reference : Term → Option Reference
as_reference (Term.reference r) = some r
as_reference _ = none

-- `ParseDownMessage`, on the five elements and on a term.
unfoldable pub down_of : Term → Term → Term → Term → Term → Option DownMessage
down_of t r w p reason =
    if is_atom t (codes "DOWN")
    then elim (as_reference r) [
      | none ↦ none
      | some ref ↦
          if is_atom w (codes "process")
          then elim (as_pid p) [
            | none ↦ none
            | some pid ↦ some (record { ref = ref; pid = pid; reason = reason })
          ]
          else none
    ]
    else none

unfoldable pub parse_down_message : Term → Option DownMessage
parse_down_message (Term.tuple (more t (more r (more w (more p (more reason done)))))) =
    down_of t r w p reason
parse_down_message _ = none

-- `caller` is `Caller.Call`, with its own errors; a reply that cannot be read is the other error.
pub data CallError (E : Type 0) : Type 0 where
  failed_call : E → CallError E
  bad_reply : ReplyError → CallError E

module _ {E : Type 0} (caller : Bytes → Terms → Result E Term) where
  abbrev pub call : Bytes → Terms → Result (CallError E) Term
  call fun args = elim (caller fun args) [ ok v ↦ ok v | err e ↦ err (failed_call e) ]

  -- A reply that has to be a pid, or a reference.
  abbrev pub expect_pid : Term → Result (CallError E) Pid
  expect_pid v = elim (as_pid v) [ some p ↦ ok p | none ↦ err (bad_reply (unexpected_reply v)) ]

  abbrev pub expect_reference : Term → Result (CallError E) Reference
  expect_reference v = elim (as_reference v) [
    | some r ↦ ok r
    | none ↦ err (bad_reply (unexpected_reply v))
  ]

  -- A reply that has to be `ok`.
  abbrev pub expect : Term → Result {0, 0} (CallError E) Unit
  expect v = elim (expect_ok v) [ none ↦ ok tt | some e ↦ err (bad_reply e) ]

  -- A reply that may also be `true`.
  unfoldable pub expect_true : Term → Result {0, 0} (CallError E) Unit
  expect_true v = if is_atom v (codes "true") then ok tt else expect v

  abbrev mfa : Bytes → Bytes → Terms → Terms
  mfa m fun args = more (Term.atom m) (more (Term.atom fun) (more (Term.list args) done))

  unfoldable pub spawn : Bytes → Bytes → Terms → Result (CallError E) Pid
  spawn m fun args = call (codes "erlang:spawn") (mfa m fun args) >>= expect_pid

  unfoldable pub spawn_link : Bytes → Bytes → Terms → Result (CallError E) Pid
  spawn_link m fun args = call (codes "erlang:spawn_link") (mfa m fun args) >>= expect_pid

  pid_and_reference : Term → Result (CallError E) (Pid × Reference)
  pid_and_reference (Term.tuple (more p (more r done))) =
      expect_pid p >>= (λ pid. expect_reference r >>= (λ ref. ok (pid, ref)))
  pid_and_reference v = err (bad_reply (unexpected_reply v))

  unfoldable pub spawn_monitor : Bytes → Bytes → Terms → Result (CallError E) (Pid × Reference)
  unfolding pid_and_reference
  spawn_monitor m fun args =
      call (codes "erlang:spawn_monitor") (mfa m fun args) >>= pid_and_reference

  unfoldable pub send_to : Pid → Term → Result {0, 0} (CallError E) Unit
  send_to pid msg =
      call (codes "erlang:send") (more (Term.pid pid) (more msg done)) >>= (λ v. ok tt)

  unfoldable pub send_named : Bytes → Term → Result {0, 0} (CallError E) Unit
  send_named name msg =
      call (codes "erlang:send") (more (Term.atom name) (more msg done)) >>= (λ v. ok tt)

  unfoldable pub exit_process : Pid → Term → Result {0, 0} (CallError E) Unit
  exit_process pid reason =
      call (codes "erlang:exit") (more (Term.pid pid) (more reason done)) >>= expect

  unfoldable pub is_alive : Pid → Result (CallError E) Bool
  is_alive pid = call (codes "erlang:is_process_alive") (more (Term.pid pid) done) >>= (λ v.
      if is_atom v (codes "true")
      then ok true
      else if is_atom v (codes "false")
      then ok false
      else err (bad_reply (unexpected_reply v)))

  -- `none` is the result `nil, false`.
  info_of : Term → Result (CallError E) (Option Term)
  info_of (Term.tuple (more key (more value done))) = ok (some value)
  info_of v =
      if is_atom v (codes "undefined") then ok none else err (bad_reply (unexpected_reply v))

  unfoldable pub process_info : Pid → Bytes → Result (CallError E) (Option Term)
  unfolding info_of
  process_info pid key =
      call (codes "erlang:process_info") (more (Term.pid pid) (more (Term.atom key) done))
      >>= info_of

  unfoldable pub self : Result (CallError E) Pid
  self = call (codes "erlang:self") done >>= expect_pid

  unfoldable pub monitor : Pid → Result (CallError E) Reference
  monitor pid =
      call (codes "erlang:monitor") (more (Term.atom (codes "process")) (more (Term.pid pid) done))
      >>= expect_reference

  unfoldable pub demonitor : Reference → Result {0, 0} (CallError E) Unit
  demonitor ref =
      call (codes "erlang:demonitor")
        (more (Term.reference ref) (more (Term.list (more (Term.atom (codes "flush")) done)) done))
      >>= expect_true

  unfoldable pub link : Pid → Result {0, 0} (CallError E) Unit
  link pid = call (codes "erlang:link") (more (Term.pid pid) done) >>= expect_true

  unfoldable pub unlink : Pid → Result {0, 0} (CallError E) Unit
  unlink pid = call (codes "erlang:unlink") (more (Term.pid pid) done) >>= expect_true
