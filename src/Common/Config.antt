-- ===== src/Common/Config.antt =====
-- cpcluster_common/src/config.rs. The text format is serde_json's and a parameter; the files are a table
-- from paths to texts.
pub mod Reload
use cpcluster.Prelude.{ℕ, String, Option, none, some, List, [], ◌∷◌, Result, ok, err, json_error}
use cpcluster.Prelude.Action.{Action}
use cpcluster.Prelude.Files.{Files, read, write}
use cpcluster.Common.Protocol.{NodeRole, worker}

pub record Config : Type 0 where
  pub min_port : ℕ
  pub max_port : ℕ
  pub failover_timeout_ms : ℕ
  pub master_addresses : List String
  pub peer_masters : Option (List String)
  pub ca_cert_path : Option String
  pub ca_cert : Option String
  pub cert_path : Option String
  pub key_path : Option String
  pub internet_ports : Option (List ℕ)
  pub storage_dir : String
  pub state_file : String
  pub disk_space_mb : ℕ
  pub role : NodeRole
  pub max_retries : ℕ
  pub log_level : Option String

abbrev pub default_storage_dir : String
default_storage_dir = "storage"

abbrev pub default_disk_space : ℕ
default_disk_space = 1024

abbrev pub default_max_retries : ℕ
default_max_retries = 5

abbrev pub default_state_file : String
default_state_file = "master_state.json"

abbrev pub default : Config
default = record {
  min_port = 55001;
  max_port = 55999;
  failover_timeout_ms = 5000;
  master_addresses = "127.0.0.1:55000" ∷ [];
  peer_masters = none;
  ca_cert_path = none;
  ca_cert = none;
  cert_path = none;
  key_path = none;
  internet_ports = none;
  storage_dir = default_storage_dir;
  state_file = default_state_file;
  disk_space_mb = default_disk_space;
  role = worker;
  max_retries = default_max_retries;
  log_level = none;
}

-- serde_json, at this type.
pub record Format : Type 0 where
  pub to_string_pretty : Config → String
  pub from_str : String → Option Config

module _ (json : Format) where
  -- A file that cannot be read gives the default configuration.
  unfoldable pub load : String → Files String → Result Config
  load path files = elim (read path files) [
    | some text ↦ elim (json.from_str text) [ some c ↦ ok c | none ↦ err json_error ]
    | none ↦ ok default
  ]

  unfoldable pub save : Config → String → Action (Files String) (Unit {0})
  save c path = write path (json.to_string_pretty c)

-- `Config::load(path).unwrap_or_default()`
abbrev pub unwrap_or_default : Result Config → Config
unwrap_or_default (ok c) = c
unwrap_or_default (err e) = default
