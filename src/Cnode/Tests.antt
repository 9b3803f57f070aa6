-- ===== src/Cnode/Tests.antt =====
-- Runs of cnode/cnode.go, and instances of the theorems.
use mochi_beam.Base.{
  ℕ, zero, ◌≡◌, ◌≢◌, ◌↔◌, ◌⊎◌, refl, ap, false, [], Option, some, ◌∷◌, ◌++◌, take, arith,
}
use mochi_beam.Text.Chars.{codes}
use mochi_beam.Etf.Term.{Bytes}
use mochi_beam.Cnode.Conn.{Conn, ok, panic, read_frame, read_full}
use mochi_beam.Etf.Wire.{big_endian}
use mochi_beam.Cnode.Handshake.{
  status_of, lacks_tag, index, handshake, recv_status, recv_challenge, recv_challenge_ack,
  challenge_of, compute_digest,
}
use mochi_beam.Cnode.Node.{
  parse_node_name, node_name_text, last_index, split_name, connect, CNode, DistConn, opened,
  address, shake, register, put_conn,
}
use mochi_beam.Cnode.Frames.{conn}
use mochi_beam.Cnode.Session.{Challenge, new_format, peer_bytes, our_bytes, handshake_lem}
use mochi_beam.Cnode.Names.{IsNotAt, parse_node_name-node_name_text}
use mochi_beam.Cnode.Joined.{Registers, connect-authentic}
use mochi_beam.Cnode.Auth.{Frames, handshake-authentic}
use mochi_beam.Cnode.Panics.{recv_challenge_ack-panics, recv_challenge-ne-panic}

-- A stand-in for the hash: the bytes themselves.
abbrev toy_hash : Bytes → Bytes
toy_hash bs = bs

abbrev us : Bytes
us = codes "c@host"

abbrev them : Bytes
them = codes "b@host"

abbrev format : Challenge
format = new_format 5 1

abbrev session : Conn
session = conn (peer_bytes toy_hash (codes "key") 7 false format 9 them []) [] 4

abbrev after : Conn
after = conn [] ([] ++ our_bytes toy_hash us (codes "key") 7 9) 0

handshake_lem_example : handshake toy_hash 7 us (codes "key") session ≡ (ok them, after)
handshake_lem_example =
    handshake_lem toy_hash 7 9 zero us (codes "key") them [] [] false format (omega arith)
      (omega arith)

handshake-authentic_example :
    (s m a : Bytes) × (theirs : ℕ) × Frames session.incoming
      ((b's' ∷ s) ∷ m ∷ a ∷ [])
      after.incoming
    × ((s ≡ codes "ok") ⊎ (s ≡ codes "ok_simultaneous"))
    × ((challenge_of m session).0 ≡ ok (theirs, them))
    × (take 17 a ≡ b'a' ∷ compute_digest toy_hash (codes "key") 7)
    × (after.outgoing ≡ session.outgoing ++ our_bytes toy_hash us (codes "key") 7 theirs)
handshake-authentic_example =
    handshake-authentic toy_hash 7 us (codes "key") them session after handshake_lem_example

abbrev empty_frame : Conn
empty_frame = conn (0 ∷ 0 ∷ []) [] 0

recv_challenge_ack-panics_example :
    (((recv_status empty_frame).0 ≡ panic) ↔ ((c' : Conn) × (read_frame empty_frame ≡ (ok [], c'))))
    × (((recv_challenge_ack [] empty_frame).0 ≡ panic)
        ↔ ((c' : Conn) × (read_frame empty_frame ≡ (ok [], c'))))
recv_challenge_ack-panics_example = recv_challenge_ack-panics [] empty_frame

recv_challenge-ne-panic_example : (recv_challenge empty_frame).0 ≢ panic
recv_challenge-ne-panic_example =
    recv_challenge-ne-panic empty_frame (omega arith, (omega arith, tt))

empty_status_panics : (recv_status empty_frame).0 ≡ panic
unfolding recv_status read_frame read_full big_endian status_of lacks_tag index
empty_status_panics = refl

last_at : parse_node_name (codes "a@b@c") ≡ ok (record { name = codes "a@b"; host = codes "c" })
unfolding parse_node_name split_name last_index
last_at = refl

ne_at : IsNotAt 99
ne_at h = omega arith

parse_node_name-node_name_text_example :
    parse_node_name (node_name_text (record { name = codes "a@b"; host = codes "c" }))
    ≡ ok (record { name = codes "a@b"; host = codes "c" })
parse_node_name-node_name_text_example =
    parse_node_name-node_name_text (record { name = codes "a@b"; host = codes "c" }) (omega arith)
      (omega arith) (ne_at, tt)

-- Every address is answered by the session above.
abbrev dial : Bytes → Option Conn
dial addr = some session

abbrev node : CNode
node = record { name = us; cookie = codes "key"; conns = [] }

-- The connection that `Connect` makes.
abbrev joined : DistConn
joined = record { conn = after; our_node = us; peer_node = them }

connect_runs :
    connect toy_hash dial 7 node them (codes "h:1")
    ≡ (ok joined, record node { conns = (them, joined) ∷ [] })
unfolding connect opened address shake register put_conn
connect_runs =
    let h = handshake_lem_example in
    rw (connect, opened, address, shake, register, ap (λ p. p.0) h, ap (λ p. p.1) h)

connect-authentic_example :
    (to : Bytes) × (c : Conn) × (address dial them (codes "h:1") ≡ ok to)
    × (dial to ≡ some c)
    × (s m a peer : Bytes) × (theirs : ℕ) × Frames c.incoming
        ((b's' ∷ s) ∷ m ∷ a ∷ [])
        joined.conn.incoming
    × ((s ≡ codes "ok") ⊎ (s ≡ codes "ok_simultaneous"))
    × ((challenge_of m c).0 ≡ ok (theirs, peer))
    × (take 17 a ≡ b'a' ∷ compute_digest toy_hash (codes "key") 7)
    × (joined.conn.outgoing ≡ c.outgoing ++ our_bytes toy_hash us (codes "key") 7 theirs)
    × (joined.peer_node ≡ them)
    × Registers node them joined (record node { conns = (them, joined) ∷ [] })
connect-authentic_example =
    connect-authentic toy_hash dial 7 node (record node { conns = (them, joined) ∷ [] }) them
      (codes "h:1") joined connect_runs
