-- ===== src/Node/Main.antt =====
-- CPCluster_node/src/main.rs: what `main` runs the node with. The default paths are made at compile time
-- from the directory of the package, and are parameters.
use cpcluster.Prelude.{String, Option, Result, ok, err}
use cpcluster.Prelude.Dict.{Dict}
use cpcluster.Prelude.Files.{Files}
use cpcluster.Common.Protocol.{JoinInfo}
use cpcluster.Common.Config
use cpcluster.Common.Config.{Config, unwrap_or_default}
use cpcluster.Common.Join
use cpcluster.Common.Join.{read_join}
use cpcluster.Common.Arguments.{
  Invocation, variable_or, parse_log_level, parse_config_path, chosen_level,
}

-- What the log is set to, and the arguments of `run`.
pub record Started (Level : Type 0) : Type 0 where
  pub level : Level
  pub join_info : JoinInfo
  pub config : Config

module _ {Level : Type 0} (parse : String → Option Level) (info : Level)
    (config_json : Config.Format) (join_json : Join.Format)
    (default_config_path default_join_path : String) where
  abbrev pub join_path : Dict String → String
  join_path = variable_or "CPCLUSTER_JOIN" default_join_path

  abbrev joined : Level → Config → Result JoinInfo → Result (Started Level)
  joined level config (ok join_info) =
      ok (record { level = level; join_info = join_info; config = config })
  joined level config (err e) = err e

  unfoldable pub main : Invocation → Files String → Result (Started Level)
  main call files =
      let cli_level = parse_log_level parse call.args in
      let config_path = parse_config_path default_config_path call.args in
      let config = unwrap_or_default (Config.load config_json config_path files) in
      joined (chosen_level parse info cli_level config.log_level) config
        (read_join join_json (join_path call.vars) call.vars files)
