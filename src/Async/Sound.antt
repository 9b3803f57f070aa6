-- ===== src/Async/Sound.antt =====
-- async/async.go: no interleaving sends on a closed channel or closes one twice.
use mochi_beam.Base.{
  ℕ, ◌≤◌, ◌≡◌, ◌≢◌, refl, sym, subst, ◌∙◌, Bool, true, false, List, [], ◌∷◌, ◌++◌, ltb, length,
  length-append, ltb→lt, Bool-cases, inl, inr, if◌then◌else◌, arith,
}
use mochi_beam.Base.Int.{ℤ}
use mochi_beam.Etf.Term.{Term}
use mochi_beam.Async.Mailbox.{
  Poller, idle, calling, finished, holding, Owner, free, pusher, Mailbox, Event, push, send,
  receive, close, close_ch, see_stop, tick, call_failed, deliver, call_reply, Outcome, blocked,
  panic, next, is_full, do_push, do_send, do_receive, do_close, do_close_ch, do_tick, do_see_stop,
  do_call_failed, do_call_reply, after_reply, reply_message, do_deliver, step, Reaches, start,
  step_of, new_mailbox, new_mailbox_from_chan,
}

-- A channel is closed only after `Close` has set `closed` and the poller has returned, and at once
-- after that the `Close` that waited is over; a `Push` that waits has found the mailbox open; the
-- buffer keeps to its capacity; and a mailbox that is closed has a closed channel or a `Close` that
-- waits.
pub record IsSound (m : Mailbox) : Type 0 where
  pub over : m.ch_closed ≡ true → (m.closed ≡ true) × (m.waiting ≡ false) × (m.poller ≡ finished)
  pub awaited : m.waiting ≡ true → m.closed ≡ true
  pub held : (msg : Term) → m.owner ≡ pusher msg → m.closed ≡ false
  pub fits : length m.buffer ≤ m.capacity
  pub ends : m.closed ≡ true → m.waiting ≡ false → m.ch_closed ≡ true

-- No panic, and a state that keeps the invariant.
abbrev pub IsGood : Outcome → Type 0
IsGood blocked = Unit
IsGood panic = ⊥
IsGood (next n) = IsSound n

IsGood-if :
    (b : Bool) (x y : Outcome)
    → (b ≡ true → IsGood x)
    → (b ≡ false → IsGood y)
    → IsGood (if b then x else y)
IsGood-if true x y f g = f refl
IsGood-if false x y f g = g refl

room : (m : Mailbox) (msg : Term) → is_full m ≡ false → length (m.buffer ++ msg ∷ []) ≤ m.capacity
room m msg h = elim (Bool-cases (ltb (length m.buffer) m.capacity)) [
  | inl e ↦ omega (arith, length-append m.buffer (msg ∷ []), ltb→lt (length m.buffer) m.capacity e)
  | inr e ↦ let q : is_full m ≡ true = rw (e) in cc
]

-- The poller moves on, and was not at its end.
moves :
    (m : Mailbox) (p q : Poller)
    → m.poller ≡ p
    → p ≢ finished
    → IsSound m
    → IsSound (record m { poller = q })
moves m p q hp hn s = record {
  over = λ h. elim (hn (sym hp ∙ (s.over h).2)) [ ];
  awaited = s.awaited;
  held = s.held;
  fits = s.fits;
  ends = s.ends;
}

do_push-IsGood :
    (msg : Term) (m : Mailbox) (o : Owner) → m.owner ≡ o → IsSound m → IsGood (do_push msg m o)
unfolding do_push
do_push-IsGood msg m (pusher x) ho s = tt
do_push-IsGood msg m free ho s =
    IsGood-if m.closed (next m) _ (λ c. s)
      (λ c. record {
        over = s.over;
        awaited = s.awaited;
        held = λ x h. c;
        fits = s.fits;
        ends = s.ends;
      })

do_send-IsGood : (m : Mailbox) (o : Owner) → m.owner ≡ o → IsSound m → IsGood (do_send m o)
unfolding do_send
do_send-IsGood m free ho s = tt
do_send-IsGood m (pusher msg) ho s =
    let c = s.held msg ho in
    IsGood-if m.ch_closed panic _ (λ h. let k = (s.over h).0 in cc)
      (λ h.
        IsGood-if (is_full m) blocked _ (λ f. tt)
          (λ f. record {
            over = s.over;
            awaited = s.awaited;
            held = λ x h. c;
            fits = room m msg f;
            ends = s.ends;
          }))

do_receive-IsGood :
    (m : Mailbox) (b : List Term) → m.buffer ≡ b → IsSound m → IsGood (do_receive m b)
unfolding do_receive
do_receive-IsGood m [] hb s = tt
do_receive-IsGood m (x ∷ xs) hb s = record {
  over = s.over;
  awaited = s.awaited;
  held = s.held;
  fits = omega (arith, subst (λ b. length b ≤ m.capacity) hb s.fits);
  ends = s.ends;
}

do_close-IsGood : (m : Mailbox) (o : Owner) → m.owner ≡ o → IsSound m → IsGood (do_close m o)
unfolding do_close
do_close-IsGood m (pusher x) ho s = tt
do_close-IsGood m free ho s =
    IsGood-if m.closed (next m) _ (λ c. s)
      (λ c. record {
        over = λ h. let k = (s.over h).0 in cc;
        awaited = λ h. refl;
        held = λ x h. cc;
        fits = s.fits;
        ends = λ h k. cc;
      })

do_close_ch-IsGood :
    (m : Mailbox) (p : Poller) → m.poller ≡ p → IsSound m → IsGood (do_close_ch m p)
unfolding do_close_ch
do_close_ch-IsGood m idle hp s = tt
do_close_ch-IsGood m calling hp s = tt
do_close_ch-IsGood m (holding x) hp s = tt
do_close_ch-IsGood m finished hp s =
    IsGood-if m.waiting _ blocked
      (λ w.
        IsGood-if m.ch_closed panic _ (λ h. let k = (s.over h).1 in cc)
          (λ h. record {
            over = λ k. (s.awaited w, refl, hp);
            awaited = λ k. s.awaited w;
            held = s.held;
            fits = s.fits;
            ends = λ k l. refl;
          }))
      (λ w. tt)

do_tick-IsGood : (m : Mailbox) (p : Poller) → m.poller ≡ p → IsSound m → IsGood (do_tick m p)
unfolding do_tick
do_tick-IsGood m idle hp s = moves m idle calling hp (λ e. cc) s
do_tick-IsGood m calling hp s = tt
do_tick-IsGood m (holding x) hp s = tt
do_tick-IsGood m finished hp s = tt

do_see_stop-IsGood :
    (m : Mailbox) (p : Poller) → m.poller ≡ p → IsSound m → IsGood (do_see_stop m p)
unfolding do_see_stop
do_see_stop-IsGood m idle hp s =
    IsGood-if m.closed _ blocked (λ c. moves m idle finished hp (λ e. cc) s) (λ c. tt)
do_see_stop-IsGood m calling hp s = tt
do_see_stop-IsGood m (holding x) hp s = tt
do_see_stop-IsGood m finished hp s = tt

do_call_failed-IsGood :
    (m : Mailbox) (p : Poller) → m.poller ≡ p → IsSound m → IsGood (do_call_failed m p)
unfolding do_call_failed
do_call_failed-IsGood m calling hp s = moves m calling finished hp (λ e. cc) s
do_call_failed-IsGood m idle hp s = tt
do_call_failed-IsGood m (holding x) hp s = tt
do_call_failed-IsGood m finished hp s = tt

do_call_reply-IsGood :
    (v : Term) (m : Mailbox) (p : Poller) → m.poller ≡ p → IsSound m → IsGood (do_call_reply v m p)
unfolding do_call_reply
do_call_reply-IsGood v m calling hp s =
    moves m calling (after_reply (reply_message v)) hp (λ e. cc) s
do_call_reply-IsGood v m idle hp s = tt
do_call_reply-IsGood v m (holding x) hp s = tt
do_call_reply-IsGood v m finished hp s = tt

do_deliver-IsGood :
    (m : Mailbox) (o : Owner) (p : Poller)
    → m.owner ≡ o
    → m.poller ≡ p
    → IsSound m
    → IsGood (do_deliver m o p)
unfolding do_deliver
do_deliver-IsGood m free (holding msg) ho hp s =
    IsGood-if m.closed _ _ (λ c. moves m (holding msg) finished hp (λ e. cc) s)
      (λ c.
        IsGood-if m.ch_closed panic _ (λ h. let k = (s.over h).0 in cc)
          (λ h.
            IsGood-if (is_full m) _ _ (λ f. moves m (holding msg) calling hp (λ e. cc) s)
              (λ f. record {
                over = λ k. cc;
                awaited = s.awaited;
                held = s.held;
                fits = room m msg f;
                ends = s.ends;
              })))
do_deliver-IsGood m free idle ho hp s = tt
do_deliver-IsGood m _ _ ho hp s = tt

pub step-IsGood : (e : Event) (m : Mailbox) → IsSound m → IsGood (step e m)
unfolding step
step-IsGood (push msg) m s = do_push-IsGood msg m m.owner refl s
step-IsGood send m s = do_send-IsGood m m.owner refl s
step-IsGood receive m s = do_receive-IsGood m m.buffer refl s
step-IsGood close m s = do_close-IsGood m m.owner refl s
step-IsGood close_ch m s = do_close_ch-IsGood m m.poller refl s
step-IsGood see_stop m s = do_see_stop-IsGood m m.poller refl s
step-IsGood tick m s = do_tick-IsGood m m.poller refl s
step-IsGood call_failed m s = do_call_failed-IsGood m m.poller refl s
step-IsGood deliver m s = do_deliver-IsGood m m.owner m.poller refl refl s
step-IsGood (call_reply v) m s = do_call_reply-IsGood v m m.poller refl s

pub Reaches-IsSound : (m n : Mailbox) → IsSound m → Reaches m n → IsSound n
Reaches-IsSound m n s start = s
Reaches-IsSound m n s (step_of {k} r e h) =
    subst IsGood h (step-IsGood e k (Reaches-IsSound m k s r))

pub new_mailbox-IsSound : (size : ℤ) → IsSound (new_mailbox size)
unfolding new_mailbox
new_mailbox-IsSound size = record {
  over = λ h. cc;
  awaited = λ h. cc;
  held = λ x h. cc;
  fits = omega arith;
  ends = λ h k. cc;
}

pub new_mailbox_from_chan-IsSound :
    (capacity : ℕ) (held : List Term)
    → length held ≤ capacity
    → IsSound (new_mailbox_from_chan capacity held)
unfolding new_mailbox_from_chan
new_mailbox_from_chan-IsSound capacity held h = record {
  over = λ k. cc;
  awaited = λ k. cc;
  held = λ x k. cc;
  fits = h;
  ends = λ k l. cc;
}
