-- ===== src/Master/Start/Joins.antt =====
-- What a node or a client learns from the join file of a master that has started.
use cpcluster.Prelude.{
  ℕ, ◌≡◌, ◌≢◌, String, Bool, Option, none, some, arith, ok, Option-cases, inl, inr, eq_refl,
}
use cpcluster.Prelude.Dict.{Dict, get, get-insert}
use cpcluster.Prelude.Files.{Files, read, write}
use cpcluster.Common.Protocol.{JoinInfo}
use cpcluster.Common.Config
use cpcluster.Common.Config.{Config, unwrap_or_default}
use cpcluster.Common.Join
use cpcluster.Common.Join.{read_join}
use cpcluster.Common.Arguments.{or_default}
use cpcluster.Master.State
use cpcluster.Master.Tls.{Library}
use cpcluster.Master.Tls.Again.{load_or_generate-read}
use cpcluster.Master.Start.{Running, join_info, run_with, run}

abbrev pub cert_path_of : Config → String
cert_path_of config = or_default "master_cert.pem" config.cert_path

abbrev pub key_path_of : Config → String
key_path_of config = or_default "master_key.pem" config.key_path

module _ {ServerConfig TcpListener : Type 0} (library : Library ServerConfig)
    (opens : String → Bool) (bind : String → ℕ → Option TcpListener) (config_json : Config.Format)
    (join_json : Join.Format) (state_json : State.Format) where
  -- A run that has returned has written the join file before it turned to TLS.
  run_with-read :
      (config : Config) (config_path join_path text : String) (info : JoinInfo)
      (files : Files String) (running : Running ServerConfig TcpListener)
      → join_json.to_string_pretty info ≡ some text
      → cert_path_of config ≢ join_path
      → key_path_of config ≢ join_path
      → (run_with library opens bind config_json join_json state_json config config_path join_path
          info files).0
        ≡ ok running
      → (read join_path
            (run_with library opens bind config_json join_json state_json config config_path
              join_path info files).1
          ≡ some text)
        × (bind info.ip info.port ≡ some running.listener)
        × (running.token ≡ info.token)
  unfolding run_with Config.save
  run_with-read config config_path join_path text info files running wrote not_cert not_key done =
      let saved = (Config.save config_json config config_path files).1 in
      let joined = (write join_path text saved).1 in
      ground (
        arith,
        load_or_generate-read library opens join_path (cert_path_of config) (key_path_of config)
            not_cert not_key info.ip joined,
        get-insert join_path join_path text saved.contents,
        eq_refl join_path,
      )

  unwritten :
      (config : Config) (config_path join_path : String) (info : JoinInfo) (files : Files String)
      (running : Running ServerConfig TcpListener)
      → join_json.to_string_pretty info ≡ none
      → (run_with library opens bind config_json join_json state_json config config_path join_path
          info files).0
        ≢ ok running
  unfolding run_with Config.save
  unwritten config config_path join_path info files running e done = ground arith

  read_join_reads :
      (path text : String) (info : JoinInfo) (vars : Dict String) (files : Files String)
      → read path files ≡ some text
      → join_json.from_str text ≡ some info
      → get "CPCLUSTER_TOKEN" vars ≡ none
      → read_join join_json path vars files ≡ ok info
  unfolding read_join
  read_join_reads path text info vars files e f unset = ground arith

  -- Where the text of the join information is parsed back, the files of the certificate are others than
  -- the join file, and CPCLUSTER_TOKEN is not set, a node or a client that reads the join file of a
  -- master that has started learns the token that the master goes by, and the address to which it has
  -- bound its listener.
  pub run-read_join :
      (config_path join_path token : String) (vars : Dict String) (files : Files String)
      (running : Running ServerConfig TcpListener)
      → let config = unwrap_or_default (Config.load config_json config_path files) in
        let info = join_info config token in
        ((text : String)
          → join_json.to_string_pretty info ≡ some text
          → join_json.from_str text ≡ some info)
        → cert_path_of config ≢ join_path
        → key_path_of config ≢ join_path
        → get "CPCLUSTER_TOKEN" vars ≡ none
        → (run library opens bind config_json join_json state_json config_path join_path token
            files).0
          ≡ ok running
        → (read_join join_json join_path vars
              (run library opens bind config_json join_json state_json config_path join_path token
                files).1
            ≡ ok info)
          × (bind info.ip info.port ≡ some running.listener)
          × (running.token ≡ info.token)
  unfolding run
  run-read_join config_path join_path token vars files running back not_cert not_key unset done =
      let config = unwrap_or_default (Config.load config_json config_path files) in
      let info = join_info config token in
      elim (Option-cases (join_json.to_string_pretty info)) [
        | inl e ↦ absurd (unwritten config config_path join_path info files running e done)
        | inr (text, e) ↦
            let result =
              run_with-read config config_path join_path text info files running e not_cert not_key
                done in
            (
              read_join_reads join_path text info vars _ result.0 (back text e) unset,
              result.1,
              result.2,
            )
      ]
