-- ===== src/Master/Tests/Start.antt =====
-- Starts of the master, and the theorems on them at concrete inputs.
use cpcluster.Prelude.{
  Option, ap, ℕ, ◌≡◌, ◌≢◌, refl, String, Bool, true, false, none, some, List, [], ◌∷◌, ok, arith,
  eq_iff,
}
use cpcluster.Prelude.Dict
use cpcluster.Prelude.Dict.{Dict}
use cpcluster.Prelude.Files.{Files}
use cpcluster.Common.Protocol.{Bytes, JoinInfo}
use cpcluster.Common.Address.{v4, is_local_ip, is_local_addr}
use cpcluster.Common.Config
use cpcluster.Common.Config.{Config, default}
use cpcluster.Common.Join
use cpcluster.Common.Join.{read_join}
use cpcluster.Master.State
use cpcluster.Master.State.{load_state}
use cpcluster.Master.Startup.{initial}
use cpcluster.Master.Tls.{Generated, Library, generate_tls_config, load_or_generate_tls_config}
use cpcluster.Master.Start.{
  Running, plain, secured, refused, accept, listen_address, listen_ip, listen_port, join_info,
  run_with, run,
}
use cpcluster.Master.Start.Joins.{run-read_join}

abbrev generated : Generated
generated = record {
  cert_pem = some "CERT";
  key_pem = "KEY";
  cert_der = some (1 ∷ []);
  key_der = 2 ∷ [];
}

-- A configuration is seen by its certificates and its key; what is read back was signed anew.
abbrev library : Library (List Bytes × Bytes)
library = record {
  certs = λ t. some ((3 ∷ []) ∷ []);
  pkcs8_private_keys = λ t. some ((2 ∷ []) ∷ []);
  with_single_cert = λ cs k. some (cs, k);
  generate_simple_self_signed = λ host. some generated;
}

abbrev all_open : String → Bool
all_open path = true

abbrev empty : Files String
empty = record { contents = []; accepts = λ p. true; remains = λ p. none }

abbrev config_json : Config.Format
config_json = record { to_string_pretty = λ c. "{}"; from_str = λ t. some default }

-- One secret and address are all that is joined.
abbrev info : JoinInfo
info = record { token = "secret"; ip = "127.0.0.1"; port = 55000 }

abbrev join_json : Join.Format
join_json = record { to_string_pretty = λ i. some "JOIN"; from_str = λ t. some info }

abbrev state_json : State.Format
state_json = record { to_string_pretty = λ s. none; from_str = λ t. none }

abbrev joined_files : Files String
joined_files = record empty {
  contents =
      ("master.json", "{}")
      ∷ ("join.json", "JOIN")
      ∷ ("master_cert.pem", "CERT")
      ∷ ("master_key.pem", "KEY")
      ∷ [];
}

abbrev running : Running (List Bytes × Bytes) (String × ℕ)
running = record {
  listener = ("127.0.0.1", 55000);
  token = "secret";
  tls_config = ((1 ∷ []) ∷ [], 2 ∷ []);
  master = initial default;
  peers = [];
}

abbrev all_bind : String → ℕ → Option (String × ℕ)
all_bind ip port = some (ip, port)

starts :
    run library all_open all_bind config_json join_json state_json "master.json" "join.json"
      "secret" empty
    ≡ (ok running, joined_files)
unfolding run run_with join_info listen_address listen_ip listen_port load_or_generate_tls_config
    generate_tls_config load_state Config.load Config.save Dict.get Dict.insert initial
starts = refl

cert_apart : ◌≢◌ {A = String} "master_cert.pem" "join.json"
cert_apart = ground (arith, eq_iff "master_cert.pem" "join.json")

key_apart : ◌≢◌ {A = String} "master_key.pem" "join.json"
key_apart = ground (arith, eq_iff "master_key.pem" "join.json")

run-read_join_example :
    (read_join join_json "join.json" []
        (run library all_open all_bind config_json join_json state_json "master.json" "join.json"
          "secret" empty).1
      ≡ ok (join_info default "secret"))
    × (all_bind (join_info default "secret").ip (join_info default "secret").port
        ≡ some running.listener)
    × (running.token ≡ (join_info default "secret").token)
unfolding starts join_info listen_ip listen_port listen_address Config.load Dict.get
run-read_join_example =
    run-read_join library all_open all_bind config_json join_json state_json "master.json"
      "join.json" "secret" [] empty running (λ text h. refl) cert_apart key_apart refl
      (ap (λ r. r.0) starts)

accepted :
    (accept (λ ip. some (v4 10 0 0 1)) true "10.0.0.1" ≡ plain)
    × (accept (λ ip. some (v4 8 8 8 8)) true "8.8.8.8" ≡ secured)
    × (accept (λ ip. none) false "?" ≡ refused)
unfolding accept is_local_ip is_local_addr
accepted = (refl, refl, refl)
