-- ===== src/Lockfile/Tests.antt =====
-- Runs of lockfile, and instances of the theorems.
use mathlib.Core.List.{Permᴰ}
use mochi_beam.Base.{[], ◌∷◌, ◌≡◌, ◌↔◌, refl, Bool, true, ◌&&◌, All, inl, arith}
use mochi_beam.Base.Int.{pos}
use mochi_beam.Base.Results.{ok}
use mochi_beam.Text.Chars.{Text, codes, text_eq}
use mochi_beam.Toml.Reading.Strings.{IsReadable, is_readable}
use mochi_beam.Lockfile.Entry.{Entry, Manifest, sort_entries}
use mochi_beam.Lockfile.Render.{render_toml, registry_of, own_app}
use mochi_beam.Lockfile.Read.{parse_toml}
use mochi_beam.Lockfile.Normal.{lines_of}
use mochi_beam.Lockfile.Check.{Dict, look_up, CheckInput, check_all, compute_beam_ingest_sha256}
use mochi_beam.Lockfile.Trees.{IsReadableEntry}
use mochi_beam.Lockfile.RoundTrip.{parse_toml-render_toml, normal_manifest}
use mochi_beam.Lockfile.Sorting.{IsInOrder, named, sort_entries_iff}
use mochi_beam.Lockfile.Order.{compute_beam_ingest_sha256-Perm}
use mochi_beam.Lockfile.Sums.{VerifiedIn, check_all-true}

abbrev all_readable : Text → Bool
all_readable [] = true
all_readable (c ∷ s) = is_readable c && all_readable s

all_readable_lem : (s : Text) → all_readable s ≡ true → All IsReadable s
all_readable_lem [] h = tt
all_readable_lem (c ∷ s) h = (ground arith, all_readable_lem s (ground arith))

abbrev cowboy : Entry
cowboy = record {
  name = codes "cowboy";
  version = codes "2.12.0";
  registry = [];
  outer_sha256 = codes "ab12";
  inner_sha256 = [];
  inner_sha512 = [];
  beam_ingest_sha256 = [];
  shim_sha256 = [];
  capabilities = codes "net" ∷ [];
  dependencies = codes "cowlib@~> 2.13" ∷ codes "ranch@~> 2.1" ∷ [];
  otp_app = codes "cowboy";
  modules = [];
}

abbrev one_entry : Manifest
one_entry = record { schema = pos 0; entries = cowboy ∷ [] }

cowboy-IsReadable : IsReadableEntry cowboy
unfolding lines_of registry_of own_app text_eq is_readable
cowboy-IsReadable = (
  all_readable_lem (codes "cowboy") refl,
  (
    all_readable_lem (codes "2.12.0") refl,
    (
      all_readable_lem (codes "https://hex.pm") refl,
      (
        all_readable_lem (codes "ab12") refl,
        (
          tt,
          (
            tt,
            (
              tt,
              (
                tt,
                (
                  tt,
                  (
                    (all_readable_lem (codes "net") refl, tt),
                    (
                      (
                        all_readable_lem (codes "cowlib@~> 2.13") refl,
                        (all_readable_lem (codes "ranch@~> 2.1") refl, tt),
                      ),
                      (tt, tt),
                    ),
                  ),
                ),
              ),
            ),
          ),
        ),
      ),
    ),
  ),
)

parse_toml-render_toml_example : parse_toml (render_toml one_entry) ≡ ok (normal_manifest one_entry)
parse_toml-render_toml_example = parse_toml-render_toml one_entry (inl refl) (cowboy-IsReadable, tt)

abbrev ranch : Entry
ranch = record {
  name = codes "ranch";
  version = codes "2.1.0";
  registry = [];
  outer_sha256 = [];
  inner_sha256 = [];
  inner_sha512 = [];
  beam_ingest_sha256 = [];
  shim_sha256 = [];
  capabilities = [];
  dependencies = [];
  otp_app = [];
  modules = [];
}

sort_entries_iff_example :
    ((cowboy ∷ ranch ∷ [] ≡ sort_entries (ranch ∷ cowboy ∷ [])) ↔ (
      IsInOrder (cowboy ∷ ranch ∷ [])
      × ((n : Text) → named n (cowboy ∷ ranch ∷ []) ≡ named n (ranch ∷ cowboy ∷ []))))
    × Permᴰ (sort_entries (ranch ∷ cowboy ∷ [])) (ranch ∷ cowboy ∷ [])
sort_entries_iff_example = sort_entries_iff (ranch ∷ cowboy ∷ []) (cowboy ∷ ranch ∷ [])

-- Stand-ins for the hash functions.
abbrev marked : Text → Text
marked s = 48 ∷ s

abbrev doubled : Text → Text
doubled s = 49 ∷ s

abbrev a_then_b : Dict Text
a_then_b = (codes "a", codes "xx") ∷ (codes "b", codes "yy") ∷ []

abbrev b_then_a : Dict Text
b_then_a = (codes "b", codes "yy") ∷ (codes "a", codes "xx") ∷ []

same_values : (k : Text) → look_up a_then_b k ≡ look_up b_then_a k
unfolding look_up text_eq
same_values [] = refl
same_values (c ∷ []) = ground arith
same_values (c ∷ d ∷ k) = ground arith

compute_beam_ingest_sha256-Perm_example :
    compute_beam_ingest_sha256 marked doubled a_then_b
    ≡ compute_beam_ingest_sha256 marked doubled b_then_a
compute_beam_ingest_sha256-Perm_example =
    compute_beam_ingest_sha256-Perm marked doubled a_then_b b_then_a (Permᴰ.swap refl refl)
      same_values

abbrev downloaded : Dict CheckInput
downloaded =
    (
      codes "cowboy",
      record {
        outer_tarball = codes "b12";
        inner_tarball = [];
        beam_chunks = [];
        shim_content = [];
      },
    )
    ∷ []

check_all-true_example :
    ((check_all marked doubled one_entry downloaded).0 ≡ true)
    ↔ All (VerifiedIn marked doubled downloaded) (cowboy ∷ [])
check_all-true_example = check_all-true marked doubled one_entry downloaded
