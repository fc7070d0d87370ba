-- ===== src/Common/Config/Reload.antt =====
-- What `Config::load` finds after `Config::save`.
use cpcluster.Prelude.{String, some, true, ◌≡◌, ok, if◌then◌else◌, str_eq, arith}
use cpcluster.Prelude.Dict.{get-insert}
use cpcluster.Prelude.Files.{Files}
use cpcluster.Common.Config.{Config, Format, load, save}

-- Where the text format reads back what it wrote of `c` and the file can be written, `save`
-- succeeds; then `load` at its path gives `c`, and at every other path what it gave before.
pub load-save :
    (json : Format) (c : Config) (path other : String) (files : Files String)
    → json.from_str (json.to_string_pretty c) ≡ some c
    → files.accepts path ≡ true
    → ((save json c path files).0 ≡ ok tt)
      × (load json other (save json c path files).1
          ≡ (if str_eq path other then ok c else load json other files))
unfolding load save
load-save json c path other files h w =
    ground (arith, get-insert path other (json.to_string_pretty c) files.contents)
