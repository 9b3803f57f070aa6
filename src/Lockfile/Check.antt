-- ===== src/Lockfile/Check.antt =====
-- lockfile/check.go and lockfile/digest.go: the checksums of an entry, for the hash functions of
-- `crypto/sha256` and `crypto/sha512`, which are parameters.
use mochi_beam.Base.{
  ℕ, [], ◌∷◌, ◌++◌, List, Bool, true, false, not, ◌&&◌, Option, some, none, ◌==◌, leb, length, take,
  if◌then◌else◌,
}
use mochi_beam.Base.Sort.{sort}
use mochi_beam.Text.Chars.{Text, codes, text_eq}
use mochi_beam.Text.Order.{text_lt}
use mochi_beam.Lockfile.Entry.{Entry, Manifest}

-- A map of keys to values, in any order of its entries.
abbrev pub Dict : Type 0 → Type 0
Dict A = List (Text × A)

unfoldable pub look_up : {A : Type 0} → Dict A → Text → Option A
look_up [] key = none
look_up (e ∷ es) key = let rest = look_up es key in if text_eq e.0 key then some e.1 else rest

abbrev pub bytes_or_none : Option Text → Text
bytes_or_none none = []
bytes_or_none (some s) = s

-- `h.Write(modules[name])` for the names in turn.
unfoldable pub payloads : Dict Text → List Text → Text
payloads m [] = []
payloads m (n ∷ ns) = bytes_or_none (look_up m n) ++ payloads m ns

abbrev pub names : {A : Type 0} → Dict A → List Text
names [] = []
names (e ∷ es) = e.0 ∷ names es

-- The bytes that `ComputeBeamIngestSHA256` hashes.
unfoldable pub ingested : Dict Text → Text
ingested m = payloads m (sort text_lt (names m))

-- `CheckInput`.
pub record CheckInput : Type 0 where
  pub outer_tarball : Text
  pub inner_tarball : Text
  pub beam_chunks : Dict Text
  pub shim_content : Text

pub data Sum : Type 0 where
  outer_256 inner_256 inner_512 beam_256 shim_256 : Sum

-- `truncate`.
unfoldable pub truncate : Text → ℕ → Text
truncate s n = if leb (length s) n then s else take n s ++ codes "..."

-- A failure: the field, and the beginnings of the sum that is recorded and of the one computed.
pub record Mismatch : Type 0 where
  pub checked : Sum
  pub want : Text
  pub got : Text

unfoldable pub compare_sum : Sum → Text → Text → List Mismatch
compare_sum f want got =
    if not (length want == 0) && not (text_eq want got)
    then record { checked = f; want = truncate want 16; got = truncate got 16 } ∷ []
    else []

-- A sum is checked only when there is something to check it against.
abbrev pub if_given : Bool → List Mismatch → List Mismatch
if_given given fs = if given then fs else []

abbrev pub set_report : Dict (List Mismatch) → Text → List Mismatch → Dict (List Mismatch)
set_report [] key fs = (key, fs) ∷ []
set_report (e ∷ es) key fs =
    let rest = set_report es key fs in if text_eq e.0 key then (key, fs) ∷ es else e ∷ rest

module _ (sha256 sha512 : Text → Text) where
  -- `ComputeBeamIngestSHA256`.
  unfoldable pub compute_beam_ingest_sha256 : Dict Text → Text
  compute_beam_ingest_sha256 m = sha256 (ingested m)

  -- `Entry.Check`; its `OK` is that the list is empty.
  unfoldable pub check : Entry → CheckInput → List Mismatch
  check e input =
      if_given (not (length input.outer_tarball == 0))
        (compare_sum outer_256 e.outer_sha256 (sha256 input.outer_tarball))
      ++ if_given (not (length input.inner_tarball == 0)) (
          compare_sum inner_256 e.inner_sha256 (sha256 input.inner_tarball)
          ++ compare_sum inner_512 e.inner_sha512 (sha512 input.inner_tarball))
      ++ if_given (not (length input.beam_chunks == 0))
          (compare_sum beam_256 e.beam_ingest_sha256 (compute_beam_ingest_sha256 input.beam_chunks))
      ++ if_given (not (length input.shim_content == 0))
          (compare_sum shim_256 e.shim_sha256 (sha256 input.shim_content))

  abbrev pub record_failures :
      Text → List Mismatch → Bool × Dict (List Mismatch) → Bool × Dict (List Mismatch)
  record_failures name [] r = r
  record_failures name (f ∷ fs) r = (false, set_report r.1 name (f ∷ fs))

  abbrev pub check_found :
      Entry → Option CheckInput → Bool × Dict (List Mismatch) → Bool × Dict (List Mismatch)
  check_found e none r = r
  check_found e (some input) r = record_failures e.name (check e input) r

  unfoldable pub check_from :
      List Entry → Dict CheckInput → Bool × Dict (List Mismatch) → Bool × Dict (List Mismatch)
  check_from [] inputs r = r
  check_from (e ∷ es) inputs r = check_from es inputs (check_found e (look_up inputs e.name) r)

  -- `CheckAll`.
  unfoldable pub check_all : Manifest → Dict CheckInput → Bool × Dict (List Mismatch)
  check_all m inputs = check_from m.entries inputs (true, [])
