-- ===== src/Master/Start.antt =====
-- CPCluster_masterNode/src/lib.rs: `run` up to its tasks, and how it serves a connection that it accepts;
-- CPCluster_masterNode/src/main.rs: with what `main` calls it. Sockets are parameters.
pub mod Joins
use cpcluster.Prelude.{
  ℕ, String, Bool, not, ◌==◌, Option, none, some, List, [], ◌∷◌, ◌≡◌, refl, Result, ok, err,
  io_error, json_error, if◌then◌else◌,
}
use Prim.Native.String.{◌++◌ as text_append}
use cpcluster.Prelude.Action.{Action, ◌>>=◌, ◌>>◌, pure}
use cpcluster.Prelude.Dict.{Dict}
use cpcluster.Prelude.Files.{Files, write}
use cpcluster.Prelude.Text.{decimal}
use cpcluster.Prelude.Text.Split.{split}
use cpcluster.Prelude.Text.Parse.{parse_u16}
use cpcluster.Common.Protocol.{JoinInfo}
use cpcluster.Common.Address.{IpAddr, is_local_ip}
use cpcluster.Common.Config
use cpcluster.Common.Config.{Config, unwrap_or_default}
use cpcluster.Common.Join
use cpcluster.Common.Arguments.{
  Invocation, or_default, variable_or, parse_log_level, parse_config_path, chosen_level,
}
use cpcluster.Master.State
use cpcluster.Master.State.{MasterNode, load_state}
use cpcluster.Master.Startup.{initial}
use cpcluster.Master.Tls.{Library, or_fail, load_or_generate_tls_config}

abbrev first : List String → Option String
first [] = none
first (a ∷ _) = some a

abbrev second : List String → Option String
second (_ ∷ b ∷ _) = some b
second _ = none

-- The address that the master listens on.
unfoldable pub listen_address : Config → String
listen_address config = or_default "127.0.0.1:55000" (first config.master_addresses)

abbrev is_colon : ℕ → Bool
is_colon c = c == 0x3a

unfoldable pub listen_ip : String → String
unfolding split
listen_ip addr = or_default "127.0.0.1" (first (split is_colon addr))

unfoldable pub listen_port : String → ℕ
unfolding split parse_u16
listen_port addr = or_default 55000 (parse_u16 (or_default "55000" (second (split is_colon addr))))

unfoldable pub join_info : Config → String → JoinInfo
join_info config token = record {
  token = token;
  ip = listen_ip (listen_address config);
  port = listen_port (listen_address config);
}

-- What the loop of `run`, and the tasks that it spawns, work with.
pub record Running (ServerConfig TcpListener : Type 0) : Type 0 where
  pub listener : TcpListener
  pub token : String
  pub tls_config : ServerConfig
  pub master : MasterNode
  pub peers : List String

-- `config.peer_masters`, each of which is connected to.
abbrev peers_of : Option (List String) → List String
peers_of none = []
peers_of (some peers) = peers

module _ {ServerConfig TcpListener : Type 0} (library : Library ServerConfig)
    (opens : String → Bool) (bind : String → ℕ → Option TcpListener) (config_json : Config.Format)
    (join_json : Join.Format) (state_json : State.Format) where
  -- `TcpListener::bind(..)?`
  abbrev pub bound : JoinInfo → Action (Files String) TcpListener
  bound info = or_fail io_error (bind info.ip info.port)

  abbrev pub started :
      Config
      → String
      → TcpListener
      → ServerConfig
      → Action (Files String) (Running ServerConfig TcpListener)
  started config token listener tls_config files = (
    ok (record {
      listener = listener;
      token = token;
      tls_config = tls_config;
      master = load_state state_json files (initial config);
      peers = peers_of config.peer_masters;
    }),
    files,
  )

  unfoldable pub run_with :
      Config → String → String → JoinInfo → Action (Files String) (Running ServerConfig TcpListener)
  run_with config config_path join_path info = do
    Config.save config_json config config_path
    text ← or_fail json_error (join_json.to_string_pretty info)
    write join_path text
    listener ← bound info
    tls_config ←
        load_or_generate_tls_config library opens (or_default "master_cert.pem" config.cert_path)
          (or_default "master_key.pem" config.key_path) info.ip
    started config info.token listener tls_config

  -- `token` is the one that `generate_token` makes.
  unfoldable pub run :
      String → String → String → Action (Files String) (Running ServerConfig TcpListener)
  run config_path join_path token files =
      let config = unwrap_or_default (Config.load config_json config_path files) in
      run_with config config_path join_path (join_info config token) files

  module _ {Level : Type 0} (parse : String → Option Level) (info : Level)
      (default_config_path default_join_path : String) where
    -- The level that the log is set to, and the outcome of `run`.
    unfoldable pub main :
        String
        → Invocation
        → Files String
        → Level × Result (Running ServerConfig TcpListener) × Files String
    main token call files =
        let config_path = parse_config_path default_config_path call.args in
        let config = unwrap_or_default (Config.load config_json config_path files) in
        let ran =
          run config_path (variable_or "CPCLUSTER_JOIN" default_join_path call.vars) token files in
        (chosen_level parse info (parse_log_level parse call.args) config.log_level, ran.0, ran.1)

-- What becomes of an accepted connection: its handler runs on the plain socket, on the TLS stream, or
-- not at all where the handshake fails.
pub data Served : Type 0 where
  plain secured refused : Served

unfoldable pub accept : (String → Option IpAddr) → Bool → String → Served
accept parse_ip handshake ip =
    let secure = if handshake then secured else refused in
    if not (is_local_ip parse_ip ip) then secure else plain

listen_examples :
    (listen_ip "10.0.0.7:6000" ≡ "10.0.0.7")
    × (listen_port "10.0.0.7:6000" ≡ 6000)
    × (listen_port "10.0.0.7" ≡ 55000)
    × (listen_port "10.0.0.7:none" ≡ 55000)
    × (listen_ip "[::1]:6000" ≡ "[")
    × (listen_port "[::1]:6000" ≡ 55000)
unfolding listen_ip listen_port
listen_examples = (refl, refl, refl, refl, refl, refl)
