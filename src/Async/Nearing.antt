-- ===== src/Async/Nearing.antt =====
-- async/async.go: how far a closed mailbox is from its end, and the steps that bring it nearer.
use mochi_beam.Base.{
  ℕ, suc, ◌+◌, ◌≤◌, ◌≡◌, refl, ap, Bool, true, false, List, [], ◌∷◌, arith, Option, none, some,
  if◌then◌else◌,
}
use mochi_beam.Etf.Term.{Term}
use mochi_beam.Async.Mailbox.{
  Poller, idle, calling, finished, holding, Owner, free, Mailbox, Event, push, send, receive, close,
  tick, close_ch, see_stop, call_failed, call_reply, deliver, Outcome, blocked, panic, next,
  do_close_ch, do_see_stop, do_call_failed, do_call_reply, do_deliver, after_reply, reply_message,
  step,
}

-- The steps of a list of events, one after the other.
abbrev pub and_run : Outcome → (Mailbox → Outcome) → Outcome
and_run blocked f = blocked
and_run panic f = panic
and_run (next n) f = f n

unfoldable pub run : List Event → Mailbox → Outcome
run [] m = next m
run (e ∷ es) m = and_run (step e m) (λ n. run es n)

-- The steps of the poller after a `Close`, and of `Close` itself, but for a tick that is taken although
-- `stop` is closed. The call of the poller, if it is in one, fails or has any reply.
abbrev pub IsClosing : Event → Type 0
IsClosing close_ch = Unit
IsClosing see_stop = Unit
IsClosing call_failed = Unit
IsClosing deliver = Unit
IsClosing (call_reply v) = Unit
IsClosing _ = ⊥

-- How the call returns: it fails, or has a reply.
abbrev pub event_of : Option Term → Event
event_of none = call_failed
event_of (some v) = call_reply v

abbrev pub count : Bool → ℕ
count true = 1
count false = 0

abbrev pub poller_rank : Poller → ℕ
poller_rank finished = 0
poller_rank idle = 1
poller_rank (holding x) = 1
poller_rank calling = 2

-- The steps that are left to the poller and to `Close`.
abbrev pub rank : Mailbox → ℕ
rank m = poller_rank m.poller + count m.waiting

-- A step of a closed mailbox that keeps what matters, and comes nearer to the end.
abbrev pub Nears : Mailbox → Mailbox → Type 0
Nears m k = (k.closed ≡ true) × (k.buffer ≡ m.buffer) × (suc (rank k) ≤ rank m)

abbrev pub AllNear : Mailbox → Outcome → Type 0
AllNear m blocked = Unit
AllNear m panic = Unit
AllNear m (next k) = Nears m k

AllNear-if :
    (m : Mailbox) (b : Bool) (x y : Outcome)
    → (b ≡ true → AllNear m x)
    → (b ≡ false → AllNear m y)
    → AllNear m (if b then x else y)
AllNear-if m true x y f g = f refl
AllNear-if m false x y f g = g refl

moved :
    (m : Mailbox) (p q : Poller)
    → m.poller ≡ p
    → m.closed ≡ true
    → suc (poller_rank q) ≤ poller_rank p
    → Nears m (record m { poller = q })
moved m p q hp c h = let r = ap poller_rank hp in (c, refl, omega (arith, h, r))

after_reply_rank : (o : Option Term) → poller_rank (after_reply o) ≡ 1
unfolding after_reply
after_reply_rank none = refl
after_reply_rank (some v) = refl

do_close_ch-near :
    (m : Mailbox) (p : Poller) → m.poller ≡ p → m.closed ≡ true → AllNear m (do_close_ch m p)
unfolding do_close_ch
do_close_ch-near m finished hp c =
    AllNear-if m m.waiting _ blocked
      (λ w.
        AllNear-if m m.ch_closed panic _ (λ h. tt)
          (λ h.
            let r : rank m ≡ poller_rank m.poller + 1 =
              ap (λ b. poller_rank m.poller + count b) w in
            (c, refl, omega (arith, r))))
      (λ w. tt)
do_close_ch-near m _ hp c = tt

do_see_stop-near :
    (m : Mailbox) (p : Poller) → m.poller ≡ p → m.closed ≡ true → AllNear m (do_see_stop m p)
unfolding do_see_stop
do_see_stop-near m idle hp c =
    AllNear-if m m.closed _ blocked (λ h. moved m idle finished hp c (omega arith)) (λ h. tt)
do_see_stop-near m _ hp c = tt

do_call_failed-near :
    (m : Mailbox) (p : Poller) → m.poller ≡ p → m.closed ≡ true → AllNear m (do_call_failed m p)
unfolding do_call_failed
do_call_failed-near m calling hp c = moved m calling finished hp c (omega arith)
do_call_failed-near m _ hp c = tt

do_call_reply-near :
    (v : Term) (m : Mailbox) (p : Poller)
    → m.poller ≡ p
    → m.closed ≡ true
    → AllNear m (do_call_reply v m p)
unfolding do_call_reply
do_call_reply-near v m calling hp c =
    moved m calling (after_reply (reply_message v)) hp c
      (omega (arith, after_reply_rank (reply_message v)))
do_call_reply-near v m _ hp c = tt

do_deliver-near :
    (m : Mailbox) (o : Owner) (p : Poller)
    → m.poller ≡ p
    → m.closed ≡ true
    → AllNear m (do_deliver m o p)
unfolding do_deliver
do_deliver-near m free (holding x) hp c =
    AllNear-if m m.closed _ _ (λ h. moved m (holding x) finished hp c (omega arith)) (λ h. cc)
do_deliver-near m _ _ hp c = tt

pub step-near : (e : Event) (m : Mailbox) → IsClosing e → m.closed ≡ true → AllNear m (step e m)
unfolding step
step-near close_ch m h c = do_close_ch-near m m.poller refl c
step-near see_stop m h c = do_see_stop-near m m.poller refl c
step-near call_failed m h c = do_call_failed-near m m.poller refl c
step-near deliver m h c = do_deliver-near m m.owner m.poller refl c
step-near (call_reply v) m h c = do_call_reply-near v m m.poller refl c
step-near (push x) m h c = absurd h
step-near send m h c = absurd h
step-near receive m h c = absurd h
step-near close m h c = absurd h
step-near tick m h c = absurd h
