-- ===== src/Async/Ending.antt =====
-- async/async.go: the end of `Close`.
use mochi_beam.Base.{
  ◌+◌, ◌≤◌, ◌≡◌, refl, sym, ap, ◌∙◌, subst, Bool, true, false, List, [], ◌∷◌, length, Bool-cases,
  inl, inr, arith, Option, none, some, All,
}
use mochi_beam.Etf.Term.{Term}
use mochi_beam.Async.Mailbox.{
  Poller, idle, calling, finished, holding, Owner, free, pusher, Mailbox, Event, close_ch, see_stop,
  call_failed, call_reply, deliver, Outcome, blocked, panic, next, do_close_ch, do_see_stop,
  do_call_failed, do_call_reply, do_deliver, after_reply, reply_message, step, Reaches,
}
use mochi_beam.Async.Sound.{IsSound, IsGood, step-IsGood, Reaches-IsSound}
use mochi_beam.Async.Closing.{IsNew, IsNew-IsSound}
use mochi_beam.Async.Nearing.{
  and_run, run, IsClosing, event_of, count, poller_rank, rank, AllNear, step-near,
}

next-injective : {m n : Mailbox} → next m ≡ next n → m ≡ n
next-injective h = cc

and_run-inverse :
    (o : Outcome) (f : Mailbox → Outcome) (k : Mailbox)
    → and_run o f ≡ next k
    → (j : Mailbox) × (o ≡ next j) × (f j ≡ next k)
and_run-inverse blocked f k h = cc
and_run-inverse panic f k h = cc
and_run-inverse (next j) f k h = (j, refl, h)

rank-le : (m : Mailbox) → rank m ≤ 3
rank-le m = go m.poller m.waiting
  where
    go : (p : Poller) (b : Bool) → poller_rank p + count b ≤ 3
    go finished true = omega arith
    go finished false = omega arith
    go idle true = omega arith
    go idle false = omega arith
    go (holding x) true = omega arith
    go (holding x) false = omega arith
    go calling true = omega arith
    go calling false = omega arith

run-near :
    (es : List Event) (n k : Mailbox)
    → IsSound n
    → n.closed ≡ true
    → All IsClosing es
    → run es n ≡ next k
    → IsSound k × (k.closed ≡ true) × (k.buffer ≡ n.buffer) × (length es + rank k ≤ rank n)
unfolding run
run-near [] n k s c h r =
    let q : n ≡ k = next-injective r in
    (
      subst IsSound q s,
      subst (λ z. z.closed ≡ true) q c,
      ap (λ z. z.buffer) (sym q),
      omega (arith, ap rank q),
    )
run-near (e ∷ es) n k s c h r =
    let (j, st, rest) = and_run-inverse (step e n) (λ m. run es m) k r in
    let near = subst (AllNear n) st (step-near e n h.0 c) in
    let good = subst IsGood st (step-IsGood e n s) in
    let (a, b, d, f) = run-near es j k good near.0 h.1 rest in
    (a, b, d ∙ near.1, omega (arith, f, near.2))

-- A step that is possible in a closed mailbox whose channel is open, when the call returns as it may.
abbrev pub Goes : Mailbox → Option Term → Type 0
Goes k how =
    (e : Event) × (j : Mailbox) × IsClosing e
    × (k.poller ≡ calling → e ≡ event_of how)
    × (step e k ≡ next j)

goes :
    (k : Mailbox) (p : Poller) (o : Owner) (how : Option Term)
    → k.poller ≡ p
    → k.owner ≡ o
    → k.closed ≡ true
    → k.waiting ≡ true
    → k.ch_closed ≡ false
    → o ≡ free
    → Goes k how
unfolding step do_close_ch do_see_stop do_call_failed do_call_reply do_deliver
goes k finished o how hp ho c w h f = (
  close_ch,
  record k { ch_closed = true; waiting = false },
  tt,
  (λ q. let z = sym hp ∙ q in cc),
  rw (hp, w, h),
)
goes k idle o how hp ho c w h f =
    (see_stop, record k { poller = finished }, tt, (λ q. let z = sym hp ∙ q in cc), rw (hp, c))
goes k calling o none hp ho c w h f =
    (call_failed, record k { poller = finished }, tt, (λ q. refl), rw (hp))
goes k calling o (some v) hp ho c w h f =
    (call_reply v, record k { poller = after_reply (reply_message v) }, tt, (λ q. refl), rw (hp))
goes k (holding x) o how hp ho c w h f = (
  deliver,
  record k { poller = finished },
  tt,
  (λ q. let z = sym hp ∙ q in cc),
  rw (hp, ho, f, c),
)

unlocked : (m : Mailbox) (o : Owner) → m.owner ≡ o → IsSound m → m.closed ≡ true → o ≡ free
unlocked m free ho s c = refl
unlocked m (pusher msg) ho s c = let k = s.held msg ho in cc

-- Once `Close` has set `closed`, a run of the poller and `Close` alone, in which the poller takes the
-- closed `stop` and not a tick, has at most three steps and leaves the buffer as it was; and as long
-- as the channel is not closed after it, a step of these two is possible, whether the call that the
-- poller may be in fails or has a reply: no reader is needed.
pub closed-ends :
    (m n k : Mailbox) (es : List Event)
    → IsNew m
    → Reaches m n
    → n.closed ≡ true
    → All IsClosing es
    → run es n ≡ next k
    → (length es ≤ 3)
      × (k.buffer ≡ n.buffer)
      × (k.ch_closed ≡ false → (how : Option Term) → Goes k how)
closed-ends m n k es new r c h e =
    let s = Reaches-IsSound m n (IsNew-IsSound m new) r in
    let (sk, ck, b, l) = run-near es n k s c h e in
    (
      omega (arith, l, rank-le n),
      b,
      λ not_closed how. elim (Bool-cases k.waiting) [
        | inl w ↦
            goes k k.poller k.owner how refl refl ck w not_closed (unlocked k k.owner refl sk ck)
        | inr w ↦ let q = sk.ends ck w in cc
      ],
    )
