-- ===== src/Cnode/Node.antt =====
-- cnode/cnode.go: node names, the port mapper, messages to a registered name, and the node's
-- connections.
use mochi_beam.Base.{
  ℕ, suc, ◌+◌, ◌%◌, ◌^◌, List, [], ◌∷◌, ◌++◌, Option, none, some, ◌||◌, not, ltb, ◌==◌,
  if◌then◌else◌, length, take, drop,
}
use mochi_beam.Base.Int.{pos}
use mochi_beam.Text.Chars.{text_eq}
use mochi_beam.Text.Decimal.{decimal}
use mochi_beam.Etf.Term as Term
use mochi_beam.Etf.Term.{Bytes, Term, Pid, done, more}
use mochi_beam.Etf.Wire.{big_endian, put_uint16, put_uint32}
use mochi_beam.Etf.Encode.{encode}
use mochi_beam.Cnode.Conn.{
  Error, Outcome, ok, err, panic, Conn, Run, pure, fail, fault, ◌>>=◌, ◌>>◌, write, read_full,
  read_failed, epmd_tag, epmd_not_found, invalid_node_name, connect_failed, encode_control,
  encode_message,
}
use mochi_beam.Cnode.Handshake.{handshake, index}

pub record NodeName : Type 0 where
  pub name : Bytes
  pub host : Bytes

-- `strings.LastIndex(full, "@")`; `none` is -1.
unfoldable pub last_index : Bytes → Option ℕ
last_index [] = none
last_index (b ∷ bs) = elim (last_index bs) [
  | none ↦ if b == b'@' then some 0 else none
  | some i ↦ some (suc i)
]

-- `ParseNodeName`, from the index found.
unfoldable pub split_name : Bytes → Option ℕ → Outcome NodeName
split_name full none = err (invalid_node_name full)
split_name full (some i) =
    if ltb i 1 || (suc i == length full)
    then err (invalid_node_name full)
    else ok (record { name = take i full; host = drop (suc i) full })

unfoldable pub parse_node_name : Bytes → Outcome NodeName
parse_node_name full = split_name full (last_index full)

-- `NodeName.String`.
unfoldable pub node_name_text : NodeName → Bytes
node_name_text n = n.name ++ b'@' ∷ n.host

-- `EPMDClient.LookupNode`, on the connection that was opened.
unfoldable pub lookup_node : Bytes → Run ℕ
lookup_node node_name = do
  write (put_uint16 (suc (length node_name) % 2 ^ 16) ++ 0x7A ∷ node_name)
  hdr ← read_full 2 read_failed
  tag ← index 0 hdr
  result ← index 1 hdr
  if not (tag == 0x77)
      then fail (epmd_tag tag)
      else if not (result == 0)
      then fail (epmd_not_found result)
      else do port ← read_full 2 read_failed; pure (big_endian 0 port)

-- `DistConn.sendMsg`. `encode` has no run that is out of fuel.
encoded : (Term.Error → Error) → Term.Result Bytes → Run Bytes
encoded f (Term.ok bs) = pure bs
encoded f (Term.err e) = fail (f e)
encoded f Term.out_of_fuel = fault

unfoldable pub send_msg : Term → Term → Run {0} Unit
unfolding encoded
send_msg control msg = do
  ctl_bytes ← encoded encode_control (encode control)
  msg_bytes ← encoded encode_message (encode msg)
  write (put_uint32 (suc (length ctl_bytes + length msg_bytes) % 2 ^ 32))
  write (0x70 ∷ ctl_bytes ++ msg_bytes)

-- `DistConn.SendRegSend`.
unfoldable pub send_reg_send : Pid → Bytes → Term → Run {0} Unit
send_reg_send from_pid to_name msg =
    send_msg
      (Term.tuple (
        more (Term.int64 (pos 6))
          (more (Term.pid from_pid) (more (Term.atom []) (more (Term.atom to_name) done)))))
      msg

pub record DistConn : Type 0 where
  pub conn : Conn
  pub our_node : Bytes
  pub peer_node : Bytes

pub record CNode : Type 0 where
  pub name : Bytes
  pub cookie : Bytes
  pub conns : List (Bytes × DistConn)

-- `c.conns[name] = dc`.
unfoldable pub put_conn : Bytes → DistConn → List (Bytes × DistConn) → List (Bytes × DistConn)
put_conn name dc [] = (name, dc) ∷ []
put_conn name dc (e ∷ es) =
    let rest = put_conn name dc es in if text_eq e.0 name then (name, dc) ∷ es else e ∷ rest

-- `CNode.Connect`: the address, the handshake on the connection to it, and the whole. `dial` opens a
-- connection, `our_challenge` is the number drawn.
unfoldable pub address : (Bytes → Option Conn) → Bytes → Bytes → Outcome Bytes
address dial remote_name (b ∷ bs) = ok (b ∷ bs)
address dial remote_name [] = elim (parse_node_name remote_name) [
  | err e ↦ err e
  | panic ↦ panic
  | ok nn ↦ elim (dial (nn.host ++ b':' ∷ decimal 4369)) [
    | none ↦ err (connect_failed nn.host)
    | some c ↦ elim ((lookup_node nn.name c).0) [
      | ok port ↦ ok (nn.host ++ b':' ∷ decimal port)
      | err e ↦ err e
      | panic ↦ panic
    ]
  ]
]

unfoldable pub shake : (Bytes → Bytes) → ℕ → CNode → Bytes → Conn → Outcome DistConn
shake md5 our_challenge node remote_name c =
    let r = handshake md5 our_challenge node.name node.cookie c in
    elim (r.0) [
      | ok peer ↦ ok (record { conn = r.1; our_node = node.name; peer_node = remote_name })
      | err e ↦ err e
      | panic ↦ panic
    ]

unfoldable pub opened :
    (Bytes → Bytes) → (Bytes → Option Conn) → ℕ → CNode → Bytes → Bytes → Outcome DistConn
opened md5 dial our_challenge node remote_name addr = elim (address dial remote_name addr) [
  | err e ↦ err e
  | panic ↦ panic
  | ok to ↦ elim (dial to) [
    | none ↦ err (connect_failed to)
    | some c ↦ shake md5 our_challenge node remote_name c
  ]
]

-- `c.conns[remoteName] = dc`, if there is no error.
unfoldable pub register : CNode → Bytes → Outcome DistConn → Outcome DistConn × CNode
register node remote_name (err e) = (err e, node)
register node remote_name panic = (panic, node)
register node remote_name (ok dc) = (
  ok dc,
  record { name = node.name; cookie = node.cookie; conns = put_conn remote_name dc node.conns },
)

unfoldable pub connect :
    (Bytes → Bytes) → (Bytes → Option Conn) → ℕ → CNode → Bytes → Bytes → Outcome DistConn × CNode
connect md5 dial our_challenge node remote_name addr =
    register node remote_name (opened md5 dial our_challenge node remote_name addr)
