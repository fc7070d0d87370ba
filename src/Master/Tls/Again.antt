-- ===== src/Master/Tls/Again.antt =====
-- What a start of the master does to the files of its certificate, and what the next start finds.
use cpcluster.Prelude.{
  ◌≡◌, ◌≢◌, refl, String, Bool, true, false, ◌&&◌, some, List, ◌∷◌, arith, ok, Option-cases, inl,
  inr, eq_iff, eq_refl,
}
use cpcluster.Prelude.Dict
use cpcluster.Prelude.Dict.{get, get-insert}
use cpcluster.Prelude.Action.{proceed}
use cpcluster.Prelude.Files.{Files, read, write, get-left}
use cpcluster.Common.Protocol.{Bytes}
use cpcluster.Master.Tls.{
  Generated, Library, exists, load_tls_config, generate_tls_config, load_or_generate_tls_config,
}

module _ {ServerConfig : Type 0} (library : Library ServerConfig) (opens : String → Bool) where
  module _ (path cert_path key_path : String) (not_cert : cert_path ≢ path)
      (not_key : key_path ≢ path) where
    write-read :
        (text : String) (files : Files String)
        → (read path (write cert_path text files).1 ≡ read path files)
          × (read path (write key_path text files).1 ≡ read path files)
    write-read text files = ground (
      arith,
      get-insert cert_path path text files.contents,
      eq_iff cert_path path,
      get-insert key_path path text files.contents,
      eq_iff key_path path,
      get-left cert_path path (files.remains cert_path) files.contents,
      get-left key_path path (files.remains key_path) files.contents,
    )

    Same : Files String → Files String → Type 0
    Same files later = read path later ≡ read path files

    generate-read :
        (host : String) (files : Files String)
        → read path (generate_tls_config library opens cert_path key_path host files).1
          ≡ read path files
    unfolding generate_tls_config
    generate-read host files = elim (Option-cases (library.generate_simple_self_signed host)) [
      | inl e ↦ rw (e, proceed) refl
      | inr (g, e) ↦ elim (Option-cases g.cert_pem) [
        | inl f ↦ rw (e, proceed, f) refl
        | inr (pem, f) ↦
            let written = write cert_path pem files in
            rw (e, proceed, f)
              (ground (arith, write-read pem files, write-read g.key_pem written.1))
      ]
    ]

    load-read :
        (files : Files String) → (load_tls_config library opens cert_path key_path files).1 ≡ files
    unfolding load_tls_config
    load-read files = ground arith

    -- No other file is touched.
    pub load_or_generate-read :
        (host : String) (files : Files String)
        → read path (load_or_generate_tls_config library opens cert_path key_path host files).1
          ≡ read path files
    unfolding load_or_generate_tls_config
    load_or_generate-read host files = ground (arith, load-read files, generate-read host files)

  module _ (cert_path key_path host : String) (g : Generated) (pem : String)
      (generated : library.generate_simple_self_signed host ≡ some g)
      (serialized : g.cert_pem ≡ some pem) where
    -- The files that a generated certificate leaves behind.
    abbrev with_files : Files String → Files String
    with_files files = record files {
      contents = Dict.insert key_path g.key_pem (Dict.insert cert_path pem files.contents);
    }

    generate_writes :
        (files : Files String)
        → files.accepts cert_path ≡ true
        → files.accepts key_path ≡ true
        → (generate_tls_config library opens cert_path key_path host files).1 ≡ with_files files
    unfolding generate_tls_config
    generate_writes files a b = rw (generated, proceed, serialized, a, b) (ground arith)

  load_tls_config_reads :
      (cert_path key_path : String) (files : Files String) (cert_text key_text : String)
      (certs keys : List Bytes) (key : Bytes) (config : ServerConfig)
      → read cert_path files ≡ some cert_text
      → read key_path files ≡ some key_text
      → (opens cert_path ≡ true) × (opens key_path ≡ true)
      → library.certs cert_text ≡ some certs
      → library.pkcs8_private_keys key_text ≡ some (key ∷ keys)
      → library.with_single_cert certs key ≡ some config
      → load_tls_config library opens cert_path key_path files ≡ (ok config, files)
  unfolding load_tls_config
  load_tls_config_reads cert_path key_path files cert_text key_text certs keys key config at_cert
        at_key openable parsed keyed made =
      rw (openable.0, at_cert, proceed, openable.1, at_key, parsed, keyed, made) refl

  -- Where a certificate is generated, because a file is missing, and both files can be written and
  -- opened, lie at different paths, and are parsed into certificates and a key of which a
  -- configuration can be made, the next start of the master serves that certificate and writes nothing.
  pub load_or_generate_again :
      (cert_path key_path host next_host : String) (files : Files String) (g : Generated)
      (pem : String) (certs keys : List Bytes) (key : Bytes) (config : ServerConfig)
      → library.generate_simple_self_signed host ≡ some g
      → g.cert_pem ≡ some pem
      → library.certs pem ≡ some certs
      → library.pkcs8_private_keys g.key_pem ≡ some (key ∷ keys)
      → library.with_single_cert certs key ≡ some config
      → cert_path ≢ key_path
      → (files.accepts cert_path ≡ true) × (files.accepts key_path ≡ true)
      → (opens cert_path ≡ true) × (opens key_path ≡ true)
      → (exists library opens cert_path files && exists library opens key_path files) ≡ false
      → let first = load_or_generate_tls_config library opens cert_path key_path host files in
        load_or_generate_tls_config library opens cert_path key_path next_host first.1
        ≡ (ok config, first.1)
  unfolding load_or_generate_tls_config
  load_or_generate_again cert_path key_path host next_host files g pem certs keys key config
        generated serialized parsed keyed made apart writable openable missing =
      let later = with_files cert_path key_path host g pem generated serialized files in
      let at_cert : read cert_path later ≡ some pem = ground (
        arith,
        get-insert key_path cert_path g.key_pem (Dict.insert cert_path pem files.contents),
        get-insert cert_path cert_path pem files.contents,
        eq_iff key_path cert_path,
        eq_refl cert_path,
      ) in
      let at_key : read key_path later ≡ some g.key_pem = ground (
        arith,
        get-insert key_path key_path g.key_pem (Dict.insert cert_path pem files.contents),
        eq_refl key_path,
      ) in
      rw
        (
          missing,
          generate_writes cert_path key_path host g pem generated serialized files writable.0
              writable.1,
          at_cert,
          at_key,
        )
        (load_tls_config_reads cert_path key_path later pem g.key_pem certs keys key config at_cert
          at_key openable parsed keyed made)
