-- ===== src/Async/Mailbox.antt =====
-- async/async.go: replies, and the mailbox with its poller as a machine whose steps are the critical
-- sections and the channel operations.
use mochi_beam.Base.{
  ℕ, zero, suc, ◌≡◌, Bool, true, false, List, [], ◌∷◌, ◌++◌, Option, none, some, ltb, if◌then◌else◌,
  length,
}
use mochi_beam.Base.Int.{ℤ, pos, negsuc}
use mochi_beam.Text.Chars.{codes, text_eq}
use mochi_beam.Etf.Term.{Bytes, Term, done, more}

-- `isAtom`.
unfoldable pub is_atom : Term → Bytes → Bool
is_atom (Term.atom b) a = text_eq b a
is_atom _ a = false

-- The errors of `expectOK`, without their texts.
pub data ReplyError : Type 0 where
  erlang_error unexpected_reply : Term → ReplyError

-- `expectOK`; `none` is a nil error.
unfoldable pub expect_ok : Term → Option ReplyError
expect_ok (Term.tuple (more t (more r done))) =
    if is_atom t (codes "error")
    then some (erlang_error r)
    else some (unexpected_reply (Term.tuple (more t (more r done))))
expect_ok v = if is_atom v (codes "ok") then none else some (unexpected_reply v)

-- The message in a reply `{ok, Msg}`; the poller leaves its loop on any other reply.
unfoldable pub reply_message : Term → Option Term
reply_message (Term.tuple (more t (more m done))) = if is_atom t (codes "ok") then some m else none
reply_message v = none

-- Where the poller is: at the select, in `Call`, with a message before the lock, or returned.
pub data Poller : Type 0 where
  idle calling finished : Poller
  holding : Term → Poller

-- Who holds the mutex between steps: a `Push` that waits for room in the channel.
pub data Owner : Type 0 where
  free : Owner
  pusher : Term → Owner

-- `Mailbox`, with the channel's buffer, the program counters, and a `Close` that waits for `done`.
-- `done` is closed exactly if the poller has returned, and `stop` exactly if `closed` is set.
pub record Mailbox : Type 0 where
  pub buffer : List Term
  pub capacity : ℕ
  pub ch_closed : Bool
  pub closed : Bool
  pub poller : Poller
  pub owner : Owner
  pub waiting : Bool

-- What the goroutines do next. `receive` is the reader of `Chan`.
pub data Event : Type 0 where
  push : Term → Event
  send receive close close_ch see_stop tick call_failed deliver : Event
  call_reply : Term → Event

-- A step is not possible now, panics, or leads to a state.
pub data Outcome : Type 0 where
  blocked panic : Outcome
  next : Mailbox → Outcome

-- `m.ch <- msg`, on a channel that is closed, full, or has room. A channel without a buffer, where
-- a send meets a receive, is always full here.
abbrev pub when_open : Bool → Outcome → Outcome
when_open ch_closed o = if ch_closed then panic else o

abbrev pub is_full : Mailbox → Bool
is_full m = if ltb (length m.buffer) m.capacity then false else true

-- `Push`: the lock and the test, and the send.
unfoldable pub do_push : Term → Mailbox → Owner → Outcome
do_push msg m (pusher other) = blocked
do_push msg m free = if m.closed then next m else next (record m { owner = pusher msg })

unfoldable pub do_send : Mailbox → Owner → Outcome
do_send m free = blocked
do_send m (pusher msg) =
    when_open m.ch_closed (
      if is_full m
      then blocked
      else next (record m { buffer = m.buffer ++ msg ∷ []; owner = free }))

-- The receive of a reader.
unfoldable pub do_receive : Mailbox → List Term → Outcome
do_receive m [] = blocked
do_receive m (x ∷ xs) = next (record m { buffer = xs })

-- `Close`: the critical section, and `close(m.ch)` after `done`.
unfoldable pub do_close : Mailbox → Owner → Outcome
do_close m (pusher msg) = blocked
do_close m free = if m.closed then next m else next (record m { closed = true; waiting = true })

unfoldable pub do_close_ch : Mailbox → Poller → Outcome
do_close_ch m finished =
    if m.waiting
    then when_open m.ch_closed (next (record m { ch_closed = true; waiting = false }))
    else blocked
do_close_ch m _ = blocked

-- `poll`: the select, the call, and the critical section, which does not wait for room.
unfoldable pub do_tick : Mailbox → Poller → Outcome
do_tick m idle = next (record m { poller = calling })
do_tick m _ = blocked

unfoldable pub do_see_stop : Mailbox → Poller → Outcome
do_see_stop m idle = if m.closed then next (record m { poller = finished }) else blocked
do_see_stop m _ = blocked

unfoldable pub do_call_failed : Mailbox → Poller → Outcome
do_call_failed m calling = next (record m { poller = finished })
do_call_failed m _ = blocked

unfoldable pub after_reply : Option Term → Poller
after_reply none = idle
after_reply (some msg) = holding msg

unfoldable pub do_call_reply : Term → Mailbox → Poller → Outcome
unfolding reply_message after_reply
do_call_reply v m calling = next (record m { poller = after_reply (reply_message v) })
do_call_reply v m _ = blocked

unfoldable pub do_deliver : Mailbox → Owner → Poller → Outcome
do_deliver m free (holding msg) =
    if m.closed
    then next (record m { poller = finished })
    else when_open m.ch_closed (
        if is_full m
        then next (record m { poller = calling })
        else next (record m { buffer = m.buffer ++ msg ∷ []; poller = calling }))
do_deliver m _ _ = blocked

unfoldable pub step : Event → Mailbox → Outcome
step (push msg) m = do_push msg m m.owner
step send m = do_send m m.owner
step receive m = do_receive m m.buffer
step close m = do_close m m.owner
step close_ch m = do_close_ch m m.poller
step see_stop m = do_see_stop m m.poller
step tick m = do_tick m m.poller
step call_failed m = do_call_failed m m.poller
step deliver m = do_deliver m m.owner m.poller
step (call_reply v) m = do_call_reply v m m.poller

-- The size of the buffer, 64 if it is not positive.
unfoldable pub buffer_size : ℤ → ℕ
buffer_size (pos zero) = 64
buffer_size (pos (suc n)) = suc n
buffer_size (negsuc n) = 64

-- `NewMailbox`, and `NewMailboxFromChan` on an open
-- channel with what it holds, whose `done` is closed from the start.
unfoldable pub new_mailbox : ℤ → Mailbox
unfolding buffer_size
new_mailbox size = record {
  buffer = [];
  capacity = buffer_size size;
  ch_closed = false;
  closed = false;
  poller = idle;
  owner = free;
  waiting = false;
}

unfoldable pub new_mailbox_from_chan : ℕ → List Term → Mailbox
new_mailbox_from_chan capacity held = record {
  buffer = held;
  capacity = capacity;
  ch_closed = false;
  closed = false;
  poller = finished;
  owner = free;
  waiting = false;
}

-- The states that the goroutines reach from a given one, in any interleaving.
pub data Reaches (m : Mailbox) : Mailbox → Type 0 where
  start : Reaches m m
  step_of : {k n : Mailbox} → Reaches m k → (e : Event) → step e k ≡ next n → Reaches m n
