-- ===== src/Node/Tests/Opening.antt =====
-- How a node comes by its streams: its theorems at concrete inputs.
use cpcluster.Prelude.{
  ◌≡◌, ◌≢◌, refl, String, true, false, Option, none, some, List, [], ◌∷◌, ok, err, tls_error,
  str_eq, if◌then◌else◌,
}
use cpcluster.Prelude.Text.{decimal}
use cpcluster.Prelude.Files.{Files}
use cpcluster.Common.Protocol.{Bytes}
use cpcluster.Common.Address.{v4, is_local_ip, is_local_addr}
use cpcluster.Node.Tls
use cpcluster.Node.Tls.{Library, connect, build_tls_config, add_all}
use cpcluster.Node.Tls.Secured.{IsSecuredBy, connect-IsSecuredBy}
use cpcluster.Node.Direct.Opening.{
  TlsRole, client, server, Network, opened, accepted, secured, plain, tls_role, open_direct,
  open_direct_fails,
}

-- A text is its own certificate, and a handshake is seen by the roots and the name.
abbrev library : Library (List Bytes) String String (List Bytes × String)
library = record {
  certs = λ pem. some ((1 ∷ []) ∷ []);
  accepts = λ c. true;
  native = record { certs = (2 ∷ []) ∷ []; errors = [] };
  with_root_certificates = λ roots. roots;
  server_name = λ ip. some ip;
  tcp = λ addr. some addr;
  handshake = λ roots name tcp. some (roots, name);
}

abbrev no_files : Files String
no_files = record { contents = []; accepts = λ p. true; remains = λ p. none }

abbrev roots : List Bytes
roots = (1 ∷ []) ∷ []

connects :
    (connect library no_files "8.8.8.8:1" false "8.8.8.8" (some "ca.pem") (some "PEM")
      ≡ ok (Tls.secured (roots, "8.8.8.8")))
    × (connect library no_files "8.8.8.8:1" false "8.8.8.8" none none
        ≡ ok (Tls.secured ((2 ∷ []) ∷ [], "8.8.8.8")))
    × (connect library no_files "10.0.0.1:1" true "10.0.0.1" none none
        ≡ ok (Tls.plain "10.0.0.1:1"))
unfolding connect
connects = (refl, refl, refl)

connect-IsSecuredBy_example :
    IsSecuredBy library no_files roots "8.8.8.8" (Tls.secured (roots, "8.8.8.8"))
unfolding connects
connect-IsSecuredBy_example =
    connect-IsSecuredBy library no_files "8.8.8.8:1" "8.8.8.8" "PEM" (some "ca.pem") roots
      (Tls.secured (roots, "8.8.8.8")) refl connects.0

-- A handshake needs a client and a server.
abbrev shake : TlsRole → TlsRole → List Bytes → String → Option String
shake client server config name = some name
shake server client config name = some name
shake own peer config name = none

abbrev net : Network (List Bytes) String String
net = record {
  parse_ip = λ ip. if str_eq ip "10.0.0.1" then some (v4 10 0 0 1) else some (v4 8 8 8 8);
  bind = λ port. true;
  tls_config = ok roots;
  server_name = λ t. some t;
  handshake = shake;
}

direct_streams :
    (open_direct net opened client "10.0.0.1" 55001 ≡ ok (plain "10.0.0.1:55001"))
    × (open_direct net opened server "8.8.8.8" 55001 ≡ ok (secured "8.8.8.8"))
    × (open_direct net accepted (tls_role opened) "8.8.8.8" 55001 ≡ err tls_error)
unfolding open_direct tls_role is_local_ip is_local_addr decimal
direct_streams = (refl, refl, refl)

remote : is_local_ip net.parse_ip "8.8.8.8" ≡ false
unfolding is_local_ip is_local_addr
remote = refl

open_direct_fails_example :
    open_direct net accepted (tls_role opened) "8.8.8.8" 55001 ≢ ok (secured "8.8.8.8")
open_direct_fails_example =
    open_direct_fails net accepted opened "8.8.8.8" 55001 (secured "8.8.8.8") (λ c n. refl) remote
