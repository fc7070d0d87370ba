-- ===== src/Node/Tls/Secured.antt =====
-- How a node that is not told its master is local speaks to it.
use cpcluster.Prelude.{
  ◌≡◌, refl, subst, String, false, Option, none, some, List, [], ◌∷◌, ◌++◌, arith, Error, Result,
  io_error, tls_error, ok, err, Result-cases, inl, inr,
}
use mathlib.Core.List.{append-nil, append_assoc}
use cpcluster.Prelude.Files.{Files}
use cpcluster.Common.Protocol.{Bytes}
use cpcluster.Node.Tls.{
  Library, Stream, plain, secured, add_all, ◌>>=◌, or_error, build_tls_config, connect,
}

-- What a step that did not return early found, and that the rest went on with.
went_on :
    {S T : Type 0} (step : Result S) (next : S → Result T) {out : T}
    (reached : (step >>= next) ≡ ok out)
    → (value : S) × (step ≡ ok value) × (next value ≡ ok out)
went_on (err error) next reached = absurd (cc reached)
went_on (ok value) next reached = (value, refl, reached)

ok_injective {ℓ} : {A : Type ℓ} {a b : A} → ok a ≡ ok b → a ≡ b
ok_injective h = cc

or_error-eq-ok {ℓ} :
    {A : Type ℓ} (e : Error) (o : Option A) {a : A} → or_error e o ≡ ok a → o ≡ some a
or_error-eq-ok e none h = cc
or_error-eq-ok e (some a) h = cc

module _ {ClientConfig Name Tcp Tls : Type 0} (library : Library ClientConfig Name Tcp Tls)
    (files : Files String) where
  -- A stream that a handshake made, with a configuration that trusts these certificates alone.
  abbrev pub IsSecuredBy : List Bytes → String → Stream Tcp Tls → Type 0
  IsSecuredBy roots ip (plain tcp) = ⊥
  IsSecuredBy roots ip (secured tls) =
      (name : Name) × (tcp : Tcp) × (library.server_name ip ≡ some name)
      × (library.handshake (library.with_root_certificates roots) name tcp ≡ some tls)

  add_all-append :
      (store certs roots : List Bytes)
      → add_all library files store certs ≡ ok roots
      → roots ≡ store ++ certs
  unfolding add_all
  add_all-append store [] roots h = cc (append-nil store)
  add_all-append store (cert ∷ certs) roots h =
      let rest = add_all-append (store ++ cert ∷ []) certs roots in
      ground (arith, rest, append_assoc store (cert ∷ []) certs)

  build_tls_config_roots :
      (pem : String) (ca_path : Option String) (certs : List Bytes) (config : ClientConfig)
      → library.certs pem ≡ some certs
      → build_tls_config library files ca_path (some pem) ≡ ok config
      → config ≡ library.with_root_certificates certs
  unfolding build_tls_config
  build_tls_config_roots pem ca_path certs config parsed built =
      elim (Result-cases (add_all library files [] certs)) [
        | inl (store, e) ↦ ground (arith, e, parsed, built, add_all-append [] certs store e)
        | inr (x, e) ↦ ground (arith, e, parsed, built)
      ]

  -- Where the configuration holds a certificate, a connection to a master that is not local is a TLS
  -- stream, for the name of that master, whose handshake trusted the certificates of that text alone,
  -- whatever the file of `ca_cert_path` or the platform holds.
  pub connect-IsSecuredBy :
      (addr ip pem : String) (ca_path : Option String) (certs : List Bytes)
      (stream : Stream Tcp Tls)
      → library.certs pem ≡ some certs
      → connect library files addr false ip ca_path (some pem) ≡ ok stream
      → IsSecuredBy certs ip stream
  unfolding connect
  connect-IsSecuredBy addr ip pem ca_path certs stream parsed connected =
      let (tcp, dialled, r) = went_on (or_error io_error (library.tcp addr)) _ connected in
      let (config, built, r') = went_on (build_tls_config library files ca_path (some pem)) _ r in
      let (name, named, r'') = went_on (or_error tls_error (library.server_name ip)) _ r' in
      let (tls, shaken, end) =
        went_on (or_error tls_error (library.handshake config name tcp)) _ r'' in
      let made : secured tls ≡ stream = ok_injective end in
      let trusted : config ≡ library.with_root_certificates certs =
        build_tls_config_roots pem ca_path certs config parsed built in
      let shook : library.handshake (library.with_root_certificates certs) name tcp ≡ some tls =
        subst (λ c. library.handshake c name tcp ≡ some tls) trusted
          (or_error-eq-ok tls_error _ shaken) in
      subst (IsSecuredBy certs ip) made (name, tcp, or_error-eq-ok tls_error _ named, shook)
