-- ===== src/Async/Closing.antt =====
-- async/async.go: what holds in every state of a mailbox.
use mochi_beam.Base.{ℕ, ◌≤◌, ◌≡◌, ◌≢◌, true, List, length}
use mochi_beam.Base.Int.{ℤ}
use mochi_beam.Etf.Term.{Term}
use mochi_beam.Async.Mailbox.{
  finished, Mailbox, Event, Outcome, blocked, panic, next, step, Reaches, new_mailbox,
  new_mailbox_from_chan,
}
use mochi_beam.Async.Sound.{
  IsSound, IsGood, step-IsGood, Reaches-IsSound, new_mailbox-IsSound, new_mailbox_from_chan-IsSound,
}

-- A mailbox as one of the two constructors makes it.
pub data IsNew : Mailbox → Type 0 where
  polled : (size : ℤ) → IsNew (new_mailbox size)
  from_chan :
      (capacity : ℕ) (held : List Term)
      → length held ≤ capacity
      → IsNew (new_mailbox_from_chan capacity held)

pub IsNew-IsSound : (m : Mailbox) → IsNew m → IsSound m
IsNew-IsSound m (polled size) = new_mailbox-IsSound size
IsNew-IsSound m (from_chan capacity held h) = new_mailbox_from_chan-IsSound capacity held h

IsGood-ne-panic : (o : Outcome) → IsGood o → o ≢ panic
IsGood-ne-panic blocked g h = cc
IsGood-ne-panic panic g h = g
IsGood-ne-panic (next n) g h = cc

-- In every state that a new mailbox reaches, in any interleaving of `Push`, `Close`, the poller and
-- the readers, no step panics (a send on a closed channel, or a second close), the buffer keeps to
-- its capacity, and a closed channel means that the poller has returned.
pub Reaches-ne-panic :
    (m n : Mailbox)
    → IsNew m
    → Reaches m n
    → ((e : Event) → step e n ≢ panic)
      × (length n.buffer ≤ n.capacity)
      × (n.ch_closed ≡ true → n.poller ≡ finished)
Reaches-ne-panic m n new r =
    let s = Reaches-IsSound m n (IsNew-IsSound m new) r in
    ((λ e. IsGood-ne-panic (step e n) (step-IsGood e n s)), s.fits, λ h. (s.over h).2)
