-- ===== src/Lockfile/Read.antt =====
-- lockfile/parse.go: the manifest of a text.
use mochi_beam.Base.{ℕ, suc, [], ◌∷◌, List, Bool, false, Option, some, none, ◌==◌, if◌then◌else◌}
use mochi_beam.Base.Int.{ℤ, pos, negsuc}
use mochi_beam.Base.Results.{Result, ok, err, ◌>>=◌, map_err}
use mochi_beam.Text.Chars.{Text, codes}
use mochi_beam.Toml.Values.{Failure, Table}
use mochi_beam.Toml.Document.{parse}
use mochi_beam.Toml.Decoder.{
  DecodeError, get_int, get_tables, get_string, get_string_required, get_strings,
}
use mochi_beam.Lockfile.Entry.{Entry, Manifest, sorted}

-- The errors, without the words that wrap them: of the parser, of a key at the top, no schema,
-- another schema, and of an entry with its index.
pub data ReadError : Type 0 where
  in_text : Failure → ReadError
  in_key : DecodeError → ReadError
  no_schema : ReadError
  unsupported : ℤ → ReadError
  in_entry : ℕ → DecodeError → ReadError

abbrev pub or_empty {ℓ} : {A : Type ℓ} → A → Option A → A
or_empty a none = a
or_empty a (some b) = b

-- The zero value, if nothing is at the key.
unfoldable pub string_or_empty : Table → Text → Result {0, 0} DecodeError Text
string_or_empty t key = get_string t key >>= (λ o. ok (or_empty [] o))

unfoldable pub strings_or_empty : Table → Text → Result {0, 0} DecodeError (List Text)
strings_or_empty t key = get_strings t key >>= (λ o. ok (or_empty [] o))

-- `decodeEntry`.
unfoldable pub decode_entry : Table → Result {0, 0} DecodeError Entry
decode_entry t = get_string_required t (codes "name") >>= (λ name.
    get_string_required t (codes "version") >>= (λ version.
      string_or_empty t (codes "registry") >>= (λ registry.
        string_or_empty t (codes "outer-sha256") >>= (λ outer.
          string_or_empty t (codes "inner-sha256") >>= (λ inner.
            string_or_empty t (codes "inner-sha512") >>= (λ long.
              string_or_empty t (codes "beam-ingest-sha256") >>= (λ beam.
                string_or_empty t (codes "shim-sha256") >>= (λ shim.
                  string_or_empty t (codes "otp-app") >>= (λ app.
                    strings_or_empty t (codes "capabilities") >>= (λ capabilities.
                      strings_or_empty t (codes "dependencies") >>= (λ dependencies.
                        strings_or_empty t (codes "modules") >>= (λ modules. ok (record {
                          name = name;
                          version = version;
                          registry = registry;
                          outer_sha256 = outer;
                          inner_sha256 = inner;
                          inner_sha512 = long;
                          beam_ingest_sha256 = beam;
                          shim_sha256 = shim;
                          capabilities = capabilities;
                          dependencies = dependencies;
                          otp_app = app;
                          modules = modules;
                        })))))))))))))

unfoldable pub decode_entries : ℕ → List Table → Result {0, 0} ReadError (List Entry)
decode_entries i [] = ok []
decode_entries i (t ∷ ts) =
    map_err (in_entry i) (decode_entry t)
    >>= (λ e. decode_entries (suc i) ts >>= (λ es. ok (e ∷ es)))

-- `int(version) != SchemaVersion`.
abbrev pub is_one : ℤ → Bool
is_one (pos n) = n == 1
is_one (negsuc n) = false

unfoldable pub check_schema : Option ℤ → Result {0, 0} ReadError ℤ
check_schema none = err no_schema
check_schema (some v) = if is_one v then ok v else err (unsupported v)

-- `ParseTOML` on the tree of the text.
unfoldable pub read_tree : Table → Result {0, 0} ReadError Manifest
read_tree tree = map_err in_key (get_int tree (codes "erlang-lockfile-schema")) >>= (λ found.
    check_schema found >>= (λ v.
      map_err in_key (get_tables tree (codes "erlang-package")) >>= (λ ts.
        decode_entries 0 (or_empty [] ts)
        >>= (λ es. ok (sorted (record { schema = v; entries = es }))))))

-- `ParseTOML`.
unfoldable pub parse_toml : Text → Result {0, 0} ReadError Manifest
parse_toml src = map_err in_text (parse src) >>= read_tree
