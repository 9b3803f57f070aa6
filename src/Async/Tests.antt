-- ===== src/Async/Tests.antt =====
-- Runs of async/async.go, and instances of the theorems.
use mochi_beam.Base.{ℕ, [], ◌∷◌, ◌↔◌, some, ◌≤◌, ◌≡◌, ◌≢◌, refl, true, false, length, Option}
use mochi_beam.Base.Int.{pos}
use mochi_beam.Text.Chars.{codes, text_eq}
use mochi_beam.Etf.Term.{Bytes, Terms, Term, done, more}
use mochi_beam.Async.Mailbox.{
  Poller, finished, holding, Mailbox, Event, close, tick, call_reply, deliver, panic, next, step,
  Reaches, start, step_of, new_mailbox, is_atom, do_close, do_tick, do_call_reply, do_deliver,
}
use mochi_beam.Base.Results.{Result, ok}
use mochi_beam.Async.Accepts.{IsAccepted, link-unlink_iff}
use mochi_beam.Async.Process.{link, unlink, DownMessage, parse_down_message}
use mochi_beam.Async.Down.{down_term, parse_down_message_iff}
use mochi_beam.Async.Closing.{polled, Reaches-ne-panic}
use mochi_beam.Async.Nearing.{run}
use mochi_beam.Async.Ending.{Goes, closed-ends}

abbrev one_place : Mailbox
one_place = new_mailbox (pos 1)

abbrev reply : Term
reply = Term.tuple (more (Term.atom (codes "ok")) (more (Term.int64 (pos 5)) done))

-- The poller has a message in hand when `Close` sets `closed`.
abbrev ticked : Mailbox
ticked = record one_place { poller = Poller.calling }

abbrev in_hand : Mailbox
in_hand = record one_place { poller = holding (Term.int64 (pos 5)) }

abbrev closing : Mailbox
closing = record in_hand { closed = true; waiting = true }

reached : Reaches one_place closing
unfolding step do_tick do_call_reply do_close new_mailbox is_atom text_eq
reached =
    step_of
      (step_of (step_of start tick (refl {a = next ticked})) (call_reply reply)
        (refl {a = next in_hand}))
      close refl

Reaches-ne-panic_example :
    ((e : Event) → step e closing ≢ panic)
    × (length closing.buffer ≤ closing.capacity)
    × (closing.ch_closed ≡ true → closing.poller ≡ finished)
Reaches-ne-panic_example = Reaches-ne-panic one_place closing (polled (pos 1)) reached

-- The poller drops the message.
abbrev dropped : Mailbox
dropped = record closing { poller = finished }

closed-ends_example :
    (1 ≤ 3)
    × (dropped.buffer ≡ closing.buffer)
    × (dropped.ch_closed ≡ false → (how : Option Term) → Goes dropped how)
closed-ends_example =
    closed-ends one_place closing dropped (deliver ∷ []) (polled (pos 1)) reached refl (tt, tt)
      (unfold run step do_deliver new_mailbox in refl)

abbrev down : DownMessage
down = record {
  ref = record { node = codes "n@h"; creation = 1; ids = 7 ∷ [] };
  pid = record { node = codes "n@h"; id = 3; serial = 0; creation = 1 };
  reason = Term.atom (codes "normal");
}

parse_down_message_iff_example :
    (parse_down_message (down_term down) ≡ some down) ↔ (down_term down ≡ down_term down)
parse_down_message_iff_example = parse_down_message_iff (down_term down) down

abbrev answers : Bytes → Terms → Result ℕ Term
answers fun args = ok (Term.atom (codes "true"))

link-unlink_iff_example :
    ((link answers down.pid ≡ ok tt) ↔ (
      (v : Term) × (answers (codes "erlang:link") (more (Term.pid down.pid) done) ≡ ok v)
      × IsAccepted v))
    × ((unlink answers down.pid ≡ ok tt) ↔ (
        (v : Term) × (answers (codes "erlang:unlink") (more (Term.pid down.pid) done) ≡ ok v)
        × IsAccepted v))
link-unlink_iff_example = link-unlink_iff answers down.pid
