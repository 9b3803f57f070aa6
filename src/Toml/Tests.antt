-- ===== src/Toml/Tests.antt =====
-- Runs of internal/toml, and instances of the theorems.
use mochi_beam.Base.{◌≢◌}
use mochi_beam.Base.Results.{err}
use mochi_beam.Text.Chars.{Text, codes}
use mochi_beam.Toml.Values.{unfinished}
use mochi_beam.Toml.Document.{parse}
use mochi_beam.Toml.Finish.Document.{parse-ne-unfinished}

abbrev sample : Text
sample = codes "a = [1, 2.5e3, { b = true }] # c\n[[t.u]]\nk = 'x'\n"

parse-ne-unfinished_example : parse sample ≢ err unfinished
parse-ne-unfinished_example = parse-ne-unfinished sample
