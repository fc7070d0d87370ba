-- ===== src/Node/Tls.antt =====
-- CPCluster_node/src/node.rs: `build_tls_config` and `connect`. rustls, rustls_pemfile, the certificates of the
-- platform and the network are parameters.
pub mod Secured
use cpcluster.Prelude.{
  String, Bool, true, false, Option, none, some, List, [], ◌∷◌, ◌++◌, Error, Result, ok, err,
  io_error, tls_error, if◌then◌else◌,
}
use cpcluster.Prelude.Files.{Files, read}
use cpcluster.Common.Protocol.{Bytes}

-- `?`: an error is returned at once.
infixl 5 ◌>>=◌
abbrev pub ◌>>=◌ : {S T : Type 0} → Result S → (S → Result T) → Result T
err error >>= next = err error
ok value >>= next = next value

abbrev pub or_error {ℓ} : {A : Type ℓ} → Error → Option A → Result A
or_error e none = err e
or_error e (some a) = ok a

-- `load_native_certs`
pub record NativeCerts : Type 0 where
  pub certs : List Bytes
  pub errors : List String

-- `accepts` is whether `RootCertStore::add` takes a certificate.
pub record Library (ClientConfig Name Tcp Tls : Type 0) : Type 0 where
  pub certs : String → Option (List Bytes)
  pub accepts : Bytes → Bool
  pub native : NativeCerts
  pub with_root_certificates : List Bytes → ClientConfig
  pub server_name : String → Option Name
  pub tcp : String → Option Tcp
  pub handshake : ClientConfig → Name → Tcp → Option Tls

-- What `Box<dyn ReadWrite>` stands for.
pub data Stream (Tcp Tls : Type 0) : Type 0 where
  plain : Tcp → Stream Tcp Tls
  secured : Tls → Stream Tcp Tls

module _ {ClientConfig Name Tcp Tls : Type 0} (library : Library ClientConfig Name Tcp Tls)
    (files : Files String) where
  -- The certificates go into a store one by one; the first that is refused is an error.
  unfoldable pub add_all : List Bytes → List Bytes → Result (List Bytes)
  add_all store [] = ok store
  add_all store (cert ∷ certs) =
      let rest = add_all (store ++ cert ∷ []) certs in
      if library.accepts cert then rest else err io_error

  abbrev native_roots : List String → Result (List Bytes)
  native_roots [] = add_all [] library.native.certs
  native_roots (e ∷ errors) = err io_error

  -- The text of the configuration, or else its file, or else the platform.
  abbrev roots : Option String → Option String → Result (List Bytes)
  roots ca_path (some pem) = do certs ← or_error io_error (library.certs pem); add_all [] certs
  roots (some path) none = do
    pem ← or_error io_error (read path files)
    certs ← or_error io_error (library.certs pem)
    add_all [] certs
  roots none none = native_roots library.native.errors

  unfoldable pub build_tls_config : Option String → Option String → Result ClientConfig
  unfolding add_all
  build_tls_config ca_path ca_cert = do
    store ← roots ca_path ca_cert
    ok (library.with_root_certificates store)

  unfoldable pub connect :
      String → Bool → String → Option String → Option String → Result (Stream Tcp Tls)
  unfolding build_tls_config
  connect addr true ip ca_path ca_cert = do
    tcp ← or_error io_error (library.tcp addr)
    ok (plain tcp)
  connect addr false ip ca_path ca_cert = do
    tcp ← or_error io_error (library.tcp addr)
    config ← build_tls_config ca_path ca_cert
    name ← or_error tls_error (library.server_name ip)
    tls ← or_error tls_error (library.handshake config name tcp)
    ok (secured tls)
