-- ===== src/Common/Arguments.antt =====
-- The command line and the environment, as CPCluster_masterNode/src/main.rs and
-- CPCluster_node/src/main.rs read them: both have the same functions. The crate log, which reads the name of a level, is a parameter.
pub mod Laws
use cpcluster.Prelude.{
  String, Bool, true, false, not, Option, none, some, List, [], ◌∷◌, str_eq, is_some, if◌then◌else◌,
}
use cpcluster.Prelude.Dict
use cpcluster.Prelude.Dict.{Dict}
use cpcluster.Prelude.Text.Split.{strip_prefix}

-- The strings of `env::args`, the program's name first, and the environment.
pub record Invocation : Type 0 where
  pub args : List String
  pub vars : Dict String

-- `args.next()`
abbrev pub after_name : List String → List String
after_name [] = []
after_name (name ∷ args) = args

abbrev pub is_flag : String → Bool
is_flag arg = is_some (strip_prefix "--" arg)

unfoldable pub first_path : String → List String → String
unfolding strip_prefix
first_path default [] = default
first_path default (arg ∷ args) =
    let rest = first_path default args in if not (is_flag arg) then arg else rest

abbrev pub or_default {ℓ} : {A : Type ℓ} → A → Option A → A
or_default d none = d
or_default d (some a) = a

abbrev pub or_else {ℓ} : {A : Type ℓ} → Option A → Option A → Option A
or_else none b = b
or_else (some a) b = some a

-- `CPCLUSTER_JOIN`, or the default.
abbrev pub variable_or : String → String → Dict String → String
variable_or name default vars = or_default default (Dict.get name vars)

module _ {Level : Type 0} (parse : String → Option Level) where
  -- The loop of `parse_log_level`, with its `expect_level`.
  unfoldable pub level_loop : Bool → List String → Option Level
  unfolding strip_prefix
  level_loop expect_level [] = none
  level_loop true (arg ∷ args) = parse arg
  level_loop false (arg ∷ args) =
      let rest = level_loop (str_eq arg "--log-level") args in
      elim (strip_prefix "--log-level=" arg) [ some level ↦ parse level | none ↦ rest ]

  unfoldable pub parse_log_level : List String → Option Level
  unfolding level_loop
  parse_log_level args = level_loop false (after_name args)

  abbrev parsed : Option String → Option Level
  parsed none = none
  parsed (some text) = parse text

  -- The level of the command line, or else that of the configuration, or else `Info`.
  unfoldable pub chosen_level : Level → Option Level → Option String → Level
  chosen_level info cli config_level = or_default info (or_else cli (parsed config_level))

unfoldable pub parse_config_path : String → List String → String
unfolding first_path
parse_config_path default args = first_path default (after_name args)
