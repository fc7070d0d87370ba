-- ===== src/Master/Tls.antt =====
-- CPCluster_masterNode/src/tls.rs: the certificate of the master. rustls, rustls_pemfile and rcgen are
-- parameters, and so is which files can be opened.
pub mod Again
use cpcluster.Prelude.{
  String, Bool, true, false, ◌&&◌, Option, none, some, List, [], ◌∷◌, Error, Result, ok, err,
  io_error, tls_error, no_private_key, is_some, if◌then◌else◌,
}
use cpcluster.Prelude.Action.{Action, ◌>>=◌, ◌>>◌}
use cpcluster.Prelude.Files.{Files, read, write}
use cpcluster.Common.Protocol.{Bytes}

-- What rcgen generates. A certificate is signed anew each time that it is serialized.
pub record Generated : Type 0 where
  pub cert_pem : Option String
  pub key_pem : String
  pub cert_der : Option Bytes
  pub key_der : Bytes

pub record Library (ServerConfig : Type 0) : Type 0 where
  pub certs : String → Option (List Bytes)
  pub pkcs8_private_keys : String → Option (List Bytes)
  pub with_single_cert : List Bytes → Bytes → Option ServerConfig
  pub generate_simple_self_signed : String → Option Generated

-- `?` on a call of these libraries.
abbrev pub or_fail {ℓ} : {A : Type ℓ} → Error → Option A → Action (Files String) A
or_fail e none files = (err e, files)
or_fail e (some a) files = (ok a, files)

module _ {ServerConfig : Type 0} (library : Library ServerConfig) (opens : String → Bool) where
  abbrev pub exists : String → Files String → Bool
  exists path files = is_some (read path files)

  -- `File::open`, and the text that is then read.
  abbrev open_file : String → Action (Files String) String
  open_file path files = or_fail io_error (if opens path then read path files else none) files

  abbrev first_key : List Bytes → Option Bytes
  first_key [] = none
  first_key (key ∷ keys) = some key

  unfoldable pub load_tls_config : String → String → Action (Files String) ServerConfig
  load_tls_config cert_path key_path = do
    cert_file ← open_file cert_path
    key_file ← open_file key_path
    certs ← or_fail io_error (library.certs cert_file)
    keys ← or_fail io_error (library.pkcs8_private_keys key_file)
    key ← or_fail no_private_key (first_key keys)
    or_fail tls_error (library.with_single_cert certs key)

  unfoldable pub generate_tls_config : String → String → String → Action (Files String) ServerConfig
  generate_tls_config cert_path key_path host = do
    cert ← or_fail tls_error (library.generate_simple_self_signed host)
    pem ← or_fail tls_error cert.cert_pem
    write cert_path pem
    write key_path cert.key_pem
    cert_der ← or_fail tls_error cert.cert_der
    or_fail tls_error (library.with_single_cert (cert_der ∷ []) cert.key_der)

  unfoldable pub load_or_generate_tls_config :
      String → String → String → Action (Files String) ServerConfig
  load_or_generate_tls_config cert_path key_path host files =
      if exists cert_path files && exists key_path files
      then load_tls_config cert_path key_path files
      else generate_tls_config cert_path key_path host files
