-- ===== src/Etf/RoundTrip/Shape.antt =====
-- Sizes, nesting and normal form of a value of etf/etf.go.
use mochi_beam.Base.{ℕ, suc, ◌^◌, ◌<◌, if◌then◌else◌, length, All}
use Prim.Native.Nat.{max}
use mochi_beam.Etf.Term.{Term, Terms, done, more}
use mochi_beam.Etf.Wire.{IsInt64}
use mochi_beam.Etf.Encode.{count, true_atom, false_atom}

abbrev pub IsUint32 : ℕ → Type 0
IsUint32 n = n < 2 ^ 32

-- The ranges of the Go types, and lengths that their fields hold.
abbrev mutual
  pub IsSized : Term → Type 0
  IsSized (Term.int v) = IsInt64 v
  IsSized (Term.int64 v) = IsInt64 v
  IsSized (Term.float64 bits) = bits < 2 ^ 64
  IsSized (Term.string b) = length b < 2 ^ 32
  IsSized (Term.binary b) = length b < 2 ^ 32
  IsSized (Term.tuple ts) = (count ts < 2 ^ 32) × AreSized ts
  IsSized (Term.list ts) = (count ts < 2 ^ 32) × AreSized ts
  IsSized (Term.pid p) = IsUint32 p.id × IsUint32 p.serial × IsUint32 p.creation
  IsSized (Term.port p) = IsUint32 p.id × IsUint32 p.creation
  IsSized (Term.reference r) = IsUint32 r.creation × (length r.ids < 2 ^ 16) × All IsUint32 r.ids
  IsSized _ = Unit

  pub AreSized : Terms → Type 0
  AreSized done = Unit
  AreSized (more t ts) = IsSized t × AreSized ts

-- What a value is read back as: `true` and `false` are atoms, an `int` is an `int64`, a `string` is
-- a binary and `nil` is the empty list.
unfoldable mutual
  pub normal : Term → Term
  normal Term.nil = Term.list done
  normal (Term.bool b) = Term.atom (if b then true_atom else false_atom)
  normal (Term.int v) = Term.int64 v
  normal (Term.string b) = Term.binary b
  normal (Term.tuple ts) = Term.tuple (normal_elems ts)
  normal (Term.list ts) = Term.list (normal_elems ts)
  normal (Term.int64 v) = Term.int64 v
  normal (Term.big_int v) = Term.big_int v
  normal (Term.float64 bits) = Term.float64 bits
  normal (Term.atom a) = Term.atom a
  normal (Term.binary b) = Term.binary b
  normal (Term.pid p) = Term.pid p
  normal (Term.port p) = Term.port p
  normal (Term.reference r) = Term.reference r

  pub normal_elems : Terms → Terms
  normal_elems done = done
  normal_elems (more t ts) = more (normal t) (normal_elems ts)

-- How deep the encodings of terms are nested.
unfoldable mutual
  pub height : Term → ℕ
  height (Term.tuple ts) = suc (heights ts)
  height (Term.list ts) = suc (heights ts)
  height (Term.pid p) = 1
  height (Term.port p) = 1
  height (Term.reference r) = 1
  height _ = 0

  pub heights : Terms → ℕ
  heights done = 0
  heights (more t ts) = max (height t) (heights ts)
