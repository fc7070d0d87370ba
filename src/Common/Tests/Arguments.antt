-- ===== src/Common/Tests/Arguments.antt =====
-- Runs of the reading of the command line.
use cpcluster.Prelude.{◌≡◌, refl, Option, none, some, String, [], ◌∷◌, str_eq, if◌then◌else◌}
use cpcluster.Common.Arguments.{parse_log_level, parse_config_path}

-- The levels by their names.
abbrev parse : String → Option String
parse text =
    if str_eq text "debug" then some "debug" else if str_eq text "error" then some "error" else none

arguments_read :
    (parse_config_path "config.json" ("prog" ∷ []) ≡ "config.json")
    × (parse_config_path "config.json" ("prog" ∷ "--log-level=debug" ∷ "master.json" ∷ [])
        ≡ "master.json")
    × (parse_log_level parse ("prog" ∷ "--log-level" ∷ "debug" ∷ []) ≡ some "debug")
    × (parse_log_level parse ("prog" ∷ "--log-level=error" ∷ []) ≡ some "error")
    × (parse_log_level parse ("prog" ∷ []) ≡ none)
unfolding parse_config_path parse_log_level
arguments_read = (refl, refl, refl, refl, refl)
