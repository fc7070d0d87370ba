-- ===== src/Prelude/Files.antt =====
-- The part of the file system that the program uses: contents by path, the paths at which a write
-- succeeds, and what a write that fails leaves of a file, such as an empty one, or a part of what was
-- written; `none` where the file is left as it was.
use mathlib.Core.Bool.{Bool, false}
use mathlib.Core.Option.{Option, none, some}
use Prim.Native.String.{String}
use cpcluster.Prelude.Tests.{if◌then◌else◌}
use cpcluster.Prelude.Results.{ok, err, io_error}
use cpcluster.Prelude.Action.{Action}
use cpcluster.Prelude.Dict
use cpcluster.Prelude.Dict.{Dict, get-insert}
use native.Mathlib.Omega.{arith}
use text.Mathlib.Text.{◌==◌ as str_eq}
use mathlib.Core.Path.{◌≡◌, refl}

pub record Files (A : Type 0) : Type 0 where
  pub contents : Dict A
  pub accepts : String → Bool
  pub remains : String → Option A

module _ {A : Type 0} where
  -- `none` is a failed read.
  abbrev pub read : String → Files A → Option A
  read path files = Dict.get path files.contents

  abbrev pub left : String → Option A → Dict A → Dict A
  left path none contents = contents
  left path (some a) contents = Dict.insert path a contents

  -- `fs::write`
  abbrev pub write : String → A → Action (Files A) (Unit {0})
  write path text files =
      if files.accepts path
      then (ok tt, record files { contents = Dict.insert path text files.contents })
      else (err io_error, record files { contents = left path (files.remains path) files.contents })

-- What a failed write leaves of a file is no other file.
pub get-left :
    {A : Type 0} (p q : String) (o : Option A) (contents : Dict A)
    → str_eq p q ≡ false
    → Dict.get q (left p o contents) ≡ Dict.get q contents
get-left p q none contents h = refl
get-left p q (some a) contents h = ground (arith, h, get-insert p q a contents)
