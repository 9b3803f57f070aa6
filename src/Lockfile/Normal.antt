-- ===== src/Lockfile/Normal.antt =====
-- lockfile: `decodeEntry` on the table that the parser makes of an entry's lines.
use mochi_beam.Base.{if◌then◌else◌, ◌==◌}
use mochi_beam.Base.{ℕ, suc, ◌≡◌, refl, true, [], ◌∷◌, length, List, suc-==-zero}
use mochi_beam.Base.Results.{ok}
use mochi_beam.Text.Chars.{Text, codes, text_eq}
use mochi_beam.Toml.Values.{Table, empty, lookup}
use mochi_beam.Toml.Decoder.{
  get_string, string_of, get_string_required, required, get_strings, strings_of, strings_from,
}
use mochi_beam.Toml.Reading.Tables.{set_all, is_key, field_value, lookup-set_all}
use mochi_beam.Lockfile.Entry.{Entry}
use mochi_beam.Lockfile.Render.{registry_of, own_app, default_registry}
use mochi_beam.Lockfile.Read.{decode_entry, string_or_empty, strings_or_empty}
use mochi_beam.Lockfile.Members.{strings}
use mochi_beam.Lockfile.Lines.{must, maybe, many, line_value}
use mochi_beam.Lockfile.Steps.{Lines, fields}

unfoldable pub lines_of : Entry → Lines
lines_of e =
    (codes "name", must e.name)
    ∷ (codes "version", must e.version)
    ∷ (codes "registry", must (registry_of e.registry))
    ∷ (codes "outer-sha256", maybe e.outer_sha256)
    ∷ (codes "inner-sha256", maybe e.inner_sha256)
    ∷ (codes "inner-sha512", maybe e.inner_sha512)
    ∷ (codes "beam-ingest-sha256", maybe e.beam_ingest_sha256)
    ∷ (codes "shim-sha256", maybe e.shim_sha256)
    ∷ (codes "otp-app", maybe (own_app e.name e.otp_app))
    ∷ (codes "capabilities", many e.capabilities)
    ∷ (codes "dependencies", many e.dependencies)
    ∷ (codes "modules", many e.modules)
    ∷ []

unfoldable pub entry_table : Entry → Table
entry_table e = set_all empty (fields (lines_of e))

-- An entry as it is written: with the default registry, and with no application of its own name.
unfoldable pub normal : Entry → Entry
normal e = record {
  name = e.name;
  version = e.version;
  registry = if length e.registry == 0 then default_registry else e.registry;
  outer_sha256 = e.outer_sha256;
  inner_sha256 = e.inner_sha256;
  inner_sha512 = e.inner_sha512;
  beam_ingest_sha256 = e.beam_ingest_sha256;
  shim_sha256 = e.shim_sha256;
  capabilities = e.capabilities;
  dependencies = e.dependencies;
  otp_app = if text_eq e.otp_app e.name then [] else e.otp_app;
  modules = e.modules;
}

module _ (t : Table) (k : Text) where
  required-must : (v : Text) → lookup t k ≡ line_value (must v) → get_string_required t k ≡ ok v
  unfolding get_string_required get_string string_of required line_value
  required-must v h = rw (h)

  empty-must : (v : Text) → lookup t k ≡ line_value (must v) → string_or_empty t k ≡ ok v
  unfolding string_or_empty get_string string_of line_value
  empty-must v h = rw (h)

  empty-maybe : (v : Text) → lookup t k ≡ line_value (maybe v) → string_or_empty t k ≡ ok v
  unfolding string_or_empty get_string string_of line_value
  empty-maybe [] h = rw (h)
  empty-maybe (c ∷ v) h = rw (h, suc-==-zero (length v))

  strings_from-strings : (i : ℕ) (vs : List Text) → strings_from k i (strings vs) ≡ ok vs
  unfolding strings_from
  strings_from-strings i [] = refl
  strings_from-strings i (v ∷ vs) = rw (strings_from-strings (suc i) vs)

  empty-many : (vs : List Text) → lookup t k ≡ line_value (many vs) → strings_or_empty t k ≡ ok vs
  unfolding strings_or_empty get_strings strings_of line_value strings_from
  empty-many [] h = rw (h)
  empty-many (v ∷ vs) h = rw (h, strings_from-strings 1 vs)

-- The value of a key of the table.
lookup-entry_table :
    (e : Entry) (k : Text)
    → is_key (fields (lines_of e)) k ≡ true
    → lookup (entry_table e) k ≡ field_value (fields (lines_of e)) k
unfolding entry_table
lookup-entry_table e k h =
    lookup-set_all empty (fields (lines_of e)) k (unfold lines_of text_eq in refl)
      (λ j _. unfold lookup in refl) h

pub decode_entry-entry_table : (e : Entry) → decode_entry (entry_table e) ≡ ok (normal e)
unfolding decode_entry normal lines_of text_eq own_app registry_of
decode_entry-entry_table e =
    let t = entry_table e in
    let at = lookup-entry_table e in
    rw (
      required-must t (codes "name") e.name (at (codes "name") refl),
      required-must t (codes "version") e.version (at (codes "version") refl),
      empty-must t (codes "registry") (registry_of e.registry) (at (codes "registry") refl),
      empty-maybe t (codes "outer-sha256") e.outer_sha256 (at (codes "outer-sha256") refl),
      empty-maybe t (codes "inner-sha256") e.inner_sha256 (at (codes "inner-sha256") refl),
      empty-maybe t (codes "inner-sha512") e.inner_sha512 (at (codes "inner-sha512") refl),
      empty-maybe t (codes "beam-ingest-sha256") e.beam_ingest_sha256
          (at (codes "beam-ingest-sha256") refl),
      empty-maybe t (codes "shim-sha256") e.shim_sha256 (at (codes "shim-sha256") refl),
      empty-maybe t (codes "otp-app") (own_app e.name e.otp_app) (at (codes "otp-app") refl),
      empty-many t (codes "capabilities") e.capabilities (at (codes "capabilities") refl),
      empty-many t (codes "dependencies") e.dependencies (at (codes "dependencies") refl),
      empty-many t (codes "modules") e.modules (at (codes "modules") refl),
    )
