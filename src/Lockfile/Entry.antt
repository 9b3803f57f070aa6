-- ===== src/Lockfile/Entry.antt =====
-- lockfile/entry.go: the entries of a manifest, and their order.
use mochi_beam.Base.{Bool, List}
use mochi_beam.Base.Int.{ℤ}
use mochi_beam.Base.Sort.{sort}
use mochi_beam.Text.Chars.{Text}
use mochi_beam.Text.Order.{text_lt}

-- `Entry`.
pub record Entry : Type 0 where
  pub name : Text
  pub version : Text
  pub registry : Text
  pub outer_sha256 : Text
  pub inner_sha256 : Text
  pub inner_sha512 : Text
  pub beam_ingest_sha256 : Text
  pub shim_sha256 : Text
  pub capabilities : List Text
  pub dependencies : List Text
  pub otp_app : Text
  pub modules : List Text

-- `Manifest`; the version of its schema.
pub record Manifest : Type 0 where
  pub schema : ℤ
  pub entries : List Entry

-- The comparison of `sort.SliceStable` in `Manifest.Sort`.
unfoldable pub entry_lt : Entry → Entry → Bool
entry_lt a b = text_lt a.name b.name

-- `sort.SliceStable` on the entries.
unfoldable pub sort_entries : List Entry → List Entry
sort_entries = sort entry_lt

-- `Manifest.Sort`.
unfoldable pub sorted : Manifest → Manifest
sorted m = record { schema = m.schema; entries = sort_entries m.entries }
