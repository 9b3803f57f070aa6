-- ===== src/Cnode/Names.antt =====
-- cnode/cnode.go: node names are read back, and the connections of a node by their names.
use mochi_beam.Base.{
  ℕ, suc, ◌<◌, ◌≡◌, ◌≢◌, refl, false, List, [], ◌∷◌, ◌++◌, arith, inl, inr, Option, none, some,
  length, drop, length-append, take-length_append, le→not_ltb, Bool-cases, All, ne→not_==,
  if◌then◌else◌,
}
use mochi_beam.Text.Chars.{text_eq, text_eq→eq, text_eq_refl}
use mochi_beam.Etf.Term.{Bytes}
use mochi_beam.Cnode.Conn.{ok}
use mochi_beam.Cnode.Node.{
  NodeName, last_index, split_name, parse_node_name, node_name_text, put_conn, DistConn,
}

abbrev pub IsNotAt : ℕ → Type 0
IsNotAt b = b ≢ b'@'

last_index-none : (h : Bytes) → All IsNotAt h → last_index h ≡ none
unfolding last_index
last_index-none [] n = refl
last_index-none (b ∷ bs) n = rw (last_index-none bs n.1, ne→not_== b b'@' n.0)

last_index-append : (a h : Bytes) → All IsNotAt h → last_index (a ++ b'@' ∷ h) ≡ some (length a)
unfolding last_index
last_index-append [] h n = rw (last_index-none h n)
last_index-append (b ∷ bs) h n = rw (last_index-append bs h n)

drop-suc_append : (a h : Bytes) → drop (suc (length a)) (a ++ b'@' ∷ h) ≡ h
drop-suc_append [] h = refl
drop-suc_append (b ∷ bs) h = drop-suc_append bs h

-- A name `name@host` with both parts, and no `@` in the host, is read back as it was written.
pub parse_node_name-node_name_text :
    (n : NodeName)
    → 0 < length n.name
    → 0 < length n.host
    → All IsNotAt n.host
    → parse_node_name (node_name_text n) ≡ ok n
unfolding parse_node_name split_name node_name_text
parse_node_name-node_name_text n hn hh ha = rw (
  last_index-append n.name n.host ha,
  le→not_ltb (length n.name) 1 (omega arith),
  ne→not_== (suc (length n.name)) (length (n.name ++ b'@' ∷ n.host))
      (λ e. omega (arith, length-append n.name (b'@' ∷ n.host))),
  take-length_append n.name (b'@' ∷ n.host),
  drop-suc_append n.name n.host,
)

-- `c.conns[name]`.
unfoldable pub get_conn : Bytes → List (Bytes × DistConn) → Option DistConn
get_conn name [] = none
get_conn name (e ∷ es) = let rest = get_conn name es in if text_eq e.0 name then some e.1 else rest

pub get_conn-put_conn :
    (name : Bytes) (dc : DistConn) (m : List (Bytes × DistConn))
    → get_conn name (put_conn name dc m) ≡ some dc
unfolding get_conn put_conn
get_conn-put_conn name dc [] = rw (text_eq_refl name)
get_conn-put_conn name dc (e ∷ es) = elim (Bool-cases (text_eq e.0 name)) [
  | inl t ↦ rw (t, text_eq_refl name)
  | inr f ↦ rw (f, f) (get_conn-put_conn name dc es)
]

not_text_eq : (a b : Bytes) → a ≢ b → text_eq a b ≡ false
not_text_eq a b h = elim (Bool-cases (text_eq a b)) [
  | inl t ↦ elim (h (text_eq→eq a b t)) [ ]
  | inr f ↦ f
]

pub get_conn-put_conn_other :
    (name other : Bytes) (dc : DistConn) (m : List (Bytes × DistConn))
    → name ≢ other
    → get_conn other (put_conn name dc m) ≡ get_conn other m
unfolding get_conn put_conn
get_conn-put_conn_other name other dc [] h = rw (not_text_eq name other h)
get_conn-put_conn_other name other dc (e ∷ es) h = elim (Bool-cases (text_eq e.0 name)) [
  | inl t ↦ rw (t, not_text_eq name other h, text_eq→eq e.0 name t, not_text_eq name other h)
  | inr f ↦ rw (f, get_conn-put_conn_other name other dc es h)
]
