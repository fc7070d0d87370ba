-- ===== src/Prelude/Text/Trim.antt =====
-- Trimming the end of a text that is put together.
use Prim.Native.Char.{Char}
use Prim.Native.String
use Prim.Native.String.{String}
use mathlib.Core.Path.{◌≡◌, refl}
use mathlib.Core.Logic.{◌≢◌}
use cpcluster.Prelude.Text.{trim_end, keep_unless_blank}

kept : (c : Char) (s : String) → s ≢ "" → keep_unless_blank c s ≡ String.◌∷◌ c s
kept c String.[] h = absurd (h refl)
kept c (String.◌∷◌ d s) h = refl

pub cons-ne-nil : (c : Char) (s : String) → String.◌∷◌ c s ≢ ""
cons-ne-nil c s h = cc

-- A text whose trimmed end is not empty.
abbrev pub IsEnded : String → Type 0
IsEnded e = trim_end e ≢ ""

pub trim_end-cons :
    (c : Char) (e : String) → IsEnded e → trim_end (String.◌∷◌ c e) ≡ String.◌∷◌ c (trim_end e)
unfolding trim_end
trim_end-cons c e h = kept c (trim_end e) h

pub cons-IsEnded : (c : Char) (e : String) → IsEnded e → IsEnded (String.◌∷◌ c e)
cons-IsEnded c e h = rw (trim_end-cons c e h) (cons-ne-nil c (trim_end e))

pub trim_end-append :
    (s e : String)
    → IsEnded e
    → (trim_end (String.◌++◌ s e) ≡ String.◌++◌ s (trim_end e)) × IsEnded (String.◌++◌ s e)
trim_end-append String.[] e h = rw (String.append.nil e, String.append.nil (trim_end e)) (refl, h)
trim_end-append (String.◌∷◌ c s) e h =
    let rest = trim_end-append s e h in
    rw (String.append.cons c s e, String.append.cons c s (trim_end e), ← rest.0)
      (trim_end-cons c (String.◌++◌ s e) rest.1, cons-IsEnded c (String.◌++◌ s e) rest.1)
