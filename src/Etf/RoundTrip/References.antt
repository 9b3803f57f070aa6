-- ===== src/Etf/RoundTrip/References.antt =====
-- etf/etf.go: what `encReference` writes for any number of IDs, and what is read of it.
use mochi_beam.Base.{◌%◌, ◌^◌, length, take}
use mochi_beam.Etf.Term.{Reference, Term}

-- What is read back of a reference: the count of its IDs wraps around at 2 ^ 16.
abbrev pub wrapped : Reference → Reference
wrapped q = record q { ids = take (length q.ids % 2 ^ 16) q.ids }
