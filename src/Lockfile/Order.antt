-- ===== src/Lockfile/Order.antt =====
-- lockfile/digest.go: the order of the hashed bytes.
use mathlib.Core.List.{Permᴰ}
use mochi_beam.Base.{◌≡◌, refl, ap, ◌∙◌, [], ◌∷◌, List}
use mochi_beam.Base.Sort.{sort}
use mochi_beam.Base.Sorted.{sort-unordered}
use mochi_beam.Text.Chars.{Text}
use mochi_beam.Text.Order.{text_lt, text_lt_asymmetric, text_lt_total, text_lt_between}
use mochi_beam.Lockfile.Check.{Dict, look_up, names, payloads, ingested, compute_beam_ingest_sha256}

payloads-same :
    (m d : Dict Text) (ns : List Text)
    → ((k : Text) → look_up m k ≡ look_up d k)
    → payloads m ns ≡ payloads d ns
unfolding payloads
payloads-same m d [] h = refl
payloads-same m d (n ∷ ns) h = rw (h n, payloads-same m d ns h)

-- `ComputeBeamIngestSHA256` does not depend on the order in which the map is run through: two lists
-- of the same entries, with the same keys in any order and the same value at each key, have the same
-- hash, whatever the hash function.
pub compute_beam_ingest_sha256-Perm :
    (sha256 sha512 : Text → Text) (m d : Dict Text)
    → Permᴰ (names m) (names d)
    → ((k : Text) → look_up m k ≡ look_up d k)
    → compute_beam_ingest_sha256 sha256 sha512 m ≡ compute_beam_ingest_sha256 sha256 sha512 d
unfolding compute_beam_ingest_sha256 ingested
compute_beam_ingest_sha256-Perm sha256 sha512 m d p h =
    let q = sort-unordered text_lt text_lt_asymmetric text_lt_total text_lt_between p in
    ap sha256 (payloads-same m d (sort text_lt (names m)) h ∙ ap (payloads d) q)
