-- ===== src/Lockfile/Render.antt =====
-- lockfile/render.go: the text of a manifest.
use mochi_beam.Base.{[], ◌∷◌, ◌++◌, List, Bool, false, if◌then◌else◌, ◌==◌, length}
use mochi_beam.Base.Int.{ℤ, pos, negsuc}
use mochi_beam.Text.Chars.{Text, codes, text_eq}
use mochi_beam.Text.Decimal.{decimal_ℤ}
use mochi_beam.Text.Quote.{quote}
use mochi_beam.Lockfile.Entry.{Entry, Manifest, sort_entries}

-- `key = %q`.
unfoldable pub line : Text → Text → Text
line key v = key ++ (codes " = " ++ (quote v ++ b'\n' ∷ []))

-- The line of a key whose value is not empty.
unfoldable pub optional : Text → Text → Text
optional key v = if length v == 0 then [] else line key v

-- The members of an array after the first one, and its end.
unfoldable pub more_members : List Text → Text
more_members [] = codes "]\n"
more_members (v ∷ vs) = codes ", " ++ (quote v ++ more_members vs)

-- The line of an array that is not empty.
unfoldable pub array_line : Text → List Text → Text
array_line key [] = []
array_line key (v ∷ vs) = key ++ (codes " = [" ++ (quote v ++ more_members vs))

abbrev pub default_registry : Text
default_registry = codes "https://hex.pm"

unfoldable pub registry_of : Text → Text
registry_of r = if length r == 0 then default_registry else r

-- The application's name, if it is not the name of the package.
unfoldable pub own_app : Text → Text → Text
own_app name app = if text_eq app name then [] else app

-- What `WriteString` and `Fprintf` write, one after the other.
unfoldable pub written : List Text → Text
written [] = []
written (s ∷ ss) = s ++ written ss

unfoldable pub entry_lines : Entry → List Text
entry_lines e =
    line (codes "name") e.name
    ∷ line (codes "version") e.version
    ∷ line (codes "registry") (registry_of e.registry)
    ∷ optional (codes "outer-sha256") e.outer_sha256
    ∷ optional (codes "inner-sha256") e.inner_sha256
    ∷ optional (codes "inner-sha512") e.inner_sha512
    ∷ optional (codes "beam-ingest-sha256") e.beam_ingest_sha256
    ∷ optional (codes "shim-sha256") e.shim_sha256
    ∷ optional (codes "otp-app") (own_app e.name e.otp_app)
    ∷ array_line (codes "capabilities") e.capabilities
    ∷ array_line (codes "dependencies") e.dependencies
    ∷ array_line (codes "modules") e.modules
    ∷ []

-- `renderEntry`.
unfoldable pub render_entry : Entry → Text
render_entry e = codes "[[erlang-package]]\n" ++ (written (entry_lines e) ++ b'\n' ∷ [])

unfoldable pub render_entries : List Entry → Text
render_entries [] = []
render_entries (e ∷ es) = render_entry e ++ render_entries es

-- The version 0 stands for the current one, `SchemaVersion`.
abbrev pub schema_of : ℤ → ℤ
schema_of v = if is_zero v then pos 1 else v
  where
    is_zero : ℤ → Bool
    is_zero (pos n) = n == 0
    is_zero (negsuc n) = false

unfoldable pub head_comment : Text
head_comment =
    codes "# Auto-generated by mochi pkg lock (MEP-66). Do not edit by hand.\n"
    ++ codes "# Regenerate via `mochi pkg lock`.\n"

-- `RenderTOML`.
unfoldable pub render_toml : Manifest → Text
render_toml m =
    head_comment
    ++ (codes "erlang-lockfile-schema = "
        ++ (decimal_ℤ (schema_of m.schema)
            ++ (codes "\n\n" ++ render_entries (sort_entries m.entries))))
