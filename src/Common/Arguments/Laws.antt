-- ===== src/Common/Arguments/Laws.antt =====
-- What the two readings of the command line make of the same arguments.
use Prim.Native.String
use cpcluster.Prelude.{
  ◌≡◌, refl, String, true, false, Option, none, List, [], ◌∷◌, ◌++◌, All, str_eq,
}
use cpcluster.Prelude.Text.Split.{strip_prefix, strip_prefix-append}
use cpcluster.Common.Arguments.{is_flag, first_path, level_loop, parse_config_path, parse_log_level}

-- A flag that says nothing of the level.
abbrev pub IsOtherFlag : String → Type 0
IsOtherFlag arg =
    (is_flag arg ≡ true)
    × (strip_prefix "--log-level=" arg ≡ none)
    × (str_eq arg "--log-level" ≡ false)

first_path_flags :
    (default : String) (before rest : List String)
    → All (λ arg. is_flag arg ≡ true) before
    → first_path default (before ++ rest) ≡ first_path default rest
unfolding first_path
first_path_flags default [] rest h = refl
first_path_flags default (arg ∷ before) rest h = rw h.0 (first_path_flags default before rest h.1)

equals_is_flag : (level : String) → is_flag (String.◌++◌ "--log-level=" level) ≡ true
unfolding strip_prefix
equals_is_flag level =
    rw
      (
        String.append.cons "-" "-log-level=" level,
        strip_prefix,
        String.append.cons "-" "log-level=" level,
      )
      refl

flags : (before : List String) → All IsOtherFlag before → All (λ arg. is_flag arg ≡ true) before
flags [] h = tt
flags (arg ∷ before) h = (h.0.0, flags before h.1)

module _ {Level : Type 0} (parse : String → Option Level) where
  level_loop_others :
      (before rest : List String)
      → All IsOtherFlag before
      → level_loop parse false (before ++ rest) ≡ level_loop parse false rest
  unfolding level_loop
  level_loop_others [] rest h = refl
  level_loop_others (arg ∷ before) rest h =
      rw (h.0.1, h.0.2, level_loop) (level_loop_others before rest h.1)

  -- After flags that say nothing of the level, both spellings of the level are read alike; but the
  -- word after `--log-level` is also taken for the path of the configuration, unless it looks like a
  -- flag, and the path that is given after it is not read.
  pub log_level_spellings :
      (default name level path : String) (before rest : List String)
      → All IsOtherFlag before
      → is_flag level ≡ false
      → is_flag path ≡ false
      → let two_words = name ∷ before ++ "--log-level" ∷ level ∷ path ∷ rest in
        let one_word = name ∷ before ++ String.◌++◌ "--log-level=" level ∷ path ∷ rest in
        (parse_log_level parse two_words ≡ parse level)
        × (parse_log_level parse one_word ≡ parse level)
        × (parse_config_path default two_words ≡ level)
        × (parse_config_path default one_word ≡ path)
  unfolding parse_log_level parse_config_path
  log_level_spellings default name level path before rest others not_flag no_flag = (
    rw (level_loop_others before _ others) refl,
    rw (level_loop_others before _ others, level_loop, strip_prefix-append "--log-level=" level)
        refl,
    rw (first_path_flags default before _ (flags before others), first_path, not_flag) refl,
    rw
        (
          first_path_flags default before _ (flags before others),
          first_path,
          equals_is_flag level,
          no_flag,
        )
        refl,
  )
