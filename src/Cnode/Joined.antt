-- ===== src/Cnode/Joined.antt =====
-- cnode/cnode.go: the connection that `Connect` registers.
use mochi_beam.Base.{
  ℕ, ◌≡◌, ◌≢◌, refl, ap, sym, ◌∙◌, subst, [], ◌∷◌, ◌++◌, ◌⊎◌, Option, none, some, take,
}
use mochi_beam.Text.Chars.{codes}
use mochi_beam.Etf.Term.{Bytes}
use mochi_beam.Cnode.Conn.{Conn, Outcome, ok, err, panic, connect_failed}
use mochi_beam.Cnode.Handshake.{handshake, challenge_of, compute_digest}
use mochi_beam.Cnode.Node.{DistConn, CNode, address, shake, opened, put_conn, register, connect}
use mochi_beam.Cnode.Session.{our_bytes}
use mochi_beam.Cnode.Auth.{Frames, handshake-authentic}
use mochi_beam.Cnode.Names.{get_conn, get_conn-put_conn, get_conn-put_conn_other}

-- A node whose connections are those of `node`, with `dc` under the name `remote`.
abbrev pub Registers : CNode → Bytes → DistConn → CNode → Type 0
Registers node remote dc after =
    (get_conn remote after.conns ≡ some dc)
    × ((other : Bytes) → remote ≢ other → get_conn other after.conns ≡ get_conn other node.conns)
    × (after.name ≡ node.name)
    × (after.cookie ≡ node.cookie)

register-inverse :
    (node after : CNode) (remote : Bytes) (o : Outcome DistConn) (dc : DistConn)
    → register node remote o ≡ (ok dc, after)
    → (o ≡ ok dc) × Registers node remote dc after
unfolding register
register-inverse node after remote (err e) dc h = let q = ap (λ p. p.0) h in cc
register-inverse node after remote panic dc h = let q = ap (λ p. p.0) h in cc
register-inverse node after remote (ok d) dc h =
    let q : ok d ≡ ok dc = ap (λ p. p.0) h in
    let same : d ≡ dc = cc in
    (
      q,
      subst (Registers node remote dc) (ap (λ p. p.1) h) (
        subst (λ z. get_conn remote (put_conn remote d node.conns) ≡ some z) same
            (get_conn-put_conn remote d node.conns),
        (λ other n. get_conn-put_conn_other remote other d node.conns n),
        refl,
        refl,
      ),
    )

module _ (md5 : Bytes → Bytes) (dial : Bytes → Option Conn) (ours : ℕ) (node : CNode)
    (remote addr : Bytes) (dc : DistConn) where
  -- A connection that was dialled, and on which the handshake returned a peer.
  abbrev Shaken : Conn → Type 0
  Shaken c =
      (peer : Bytes) × (handshake md5 ours node.name node.cookie c ≡ (ok peer, dc.conn))
      × (dc.peer_node ≡ remote)
      × (dc.our_node ≡ node.name)

  shake-inverse :
      (c c' : Conn) (r : Outcome Bytes)
      → handshake md5 ours node.name node.cookie c ≡ (r, c')
      → shake md5 ours node remote c ≡ ok dc
      → Shaken c
  unfolding shake
  shake-inverse c c' (err e) hr h =
      let q : shake md5 ours node remote c ≡ err e = rw (shake, hr) in cc
  shake-inverse c c' panic hr h =
      let q : shake md5 ours node remote c ≡ panic = rw (shake, hr) in cc
  shake-inverse c c' (ok peer) hr h =
      let r = handshake md5 ours node.name node.cookie c in
      let made : DistConn = record { conn = r.1; our_node = node.name; peer_node = remote } in
      let q : shake md5 ours node remote c ≡ ok made = rw (shake, ap (λ p. p.0) hr) in
      let same : made ≡ dc = cc in
      (
        peer,
        hr ∙ ap (λ z. (ok peer, z)) (ap (λ p. p.1) (sym hr) ∙ ap (λ z. z.conn) same),
        ap (λ z. z.peer_node) (sym same),
        ap (λ z. z.our_node) (sym same),
      )

  dialled :
      (to : Bytes) (d : Option Conn)
      → address dial remote addr ≡ ok to
      → dial to ≡ d
      → opened md5 dial ours node remote addr ≡ ok dc
      → (c : Conn) × (dial to ≡ some c) × Shaken c
  unfolding opened
  dialled to none ha hd h =
      let q : opened md5 dial ours node remote addr ≡ err (connect_failed to) =
        rw (opened, ha, hd) in
      cc
  dialled to (some c) ha hd h =
      let q : opened md5 dial ours node remote addr ≡ shake md5 ours node remote c =
        rw (opened, ha, hd) in
      let r = handshake md5 ours node.name node.cookie c in
      (c, hd, shake-inverse c (r.1) (r.0) refl (sym q ∙ h))

  opened-inverse :
      (o : Outcome Bytes)
      → address dial remote addr ≡ o
      → opened md5 dial ours node remote addr ≡ ok dc
      → (to : Bytes) × (address dial remote addr ≡ ok to)
        × (c : Conn) × (dial to ≡ some c)
        × Shaken c
  unfolding opened
  opened-inverse (err e) ha h =
      let q : opened md5 dial ours node remote addr ≡ err e = rw (opened, ha) in cc
  opened-inverse panic ha h =
      let q : opened md5 dial ours node remote addr ≡ panic = rw (opened, ha) in cc
  opened-inverse (ok to) ha h =
      let (c, hd, sh) = dialled to (dial to) ha refl h in (to, ha, c, hd, sh)

-- A `Connect` that returns a connection has dialled the address that was given or looked up, and read
-- there a status of `ok` or `ok_simultaneous`, a challenge, and a message that starts with the digest
-- of the node's cookie and our challenge; it has written our name, and our challenge with the digest
-- of the challenge that was read, and nothing else. The connection after that is registered under the
-- remote name, and every other connection, the name and the cookie of the node stay.
pub connect-authentic :
    (md5 : Bytes → Bytes) (dial : Bytes → Option Conn) (ours : ℕ) (node after : CNode)
    (remote addr : Bytes) (dc : DistConn)
    → connect md5 dial ours node remote addr ≡ (ok dc, after)
    → (to : Bytes) × (c : Conn) × (address dial remote addr ≡ ok to)
      × (dial to ≡ some c)
      × (s m a peer : Bytes) × (theirs : ℕ) × Frames c.incoming
          ((b's' ∷ s) ∷ m ∷ a ∷ [])
          dc.conn.incoming
      × ((s ≡ codes "ok") ⊎ (s ≡ codes "ok_simultaneous"))
      × ((challenge_of m c).0 ≡ ok (theirs, peer))
      × (take 17 a ≡ b'a' ∷ compute_digest md5 node.cookie ours)
      × (dc.conn.outgoing ≡ c.outgoing ++ our_bytes md5 node.name node.cookie ours theirs)
      × (dc.peer_node ≡ remote)
      × Registers node remote dc after
unfolding connect
connect-authentic md5 dial ours node after remote addr dc h =
    let (made, reg) =
      register-inverse node after remote (opened md5 dial ours node remote addr) dc h in
    let (to, ha, c, hd, (peer, hs, named, us)) =
      opened-inverse md5 dial ours node remote addr dc (address dial remote addr) refl made in
    let (s, m, a, theirs, fr, st, ch, ack, out) =
      handshake-authentic md5 ours node.name node.cookie peer c dc.conn hs in
    (to, c, ha, hd, s, m, a, peer, theirs, fr, st, ch, ack, out, named, reg)
