-- ===== src/Node/Direct/Opening.antt =====
-- CPCluster_node/src/node.rs: how `handle_connection` comes by its stream, before the loop on its frames.
use cpcluster.Prelude.{
  ℕ, ◌≡◌, ◌≢◌, refl, String, Bool, false, not, Option, none, some, arith, Result, ok, io_error,
  tls_error, if◌then◌else◌, Option-cases, Result-cases, inl, inr,
}
use Prim.Native.String.{◌++◌ as text_append}
use cpcluster.Prelude.Text.{decimal}
use cpcluster.Common.Address.{IpAddr, is_local_ip}
use cpcluster.Node.Tls.{◌>>=◌, or_error}

-- Which branch of `select!` is taken: the node's own call, or one that it accepts.
pub data Side : Type 0 where
  opened accepted : Side

-- The part that a node plays in a TLS handshake.
pub data TlsRole : Type 0 where
  client server : TlsRole

-- Both branches call `TlsConnector::connect`.
unfoldable pub tls_role : Side → TlsRole
tls_role opened = client
tls_role accepted = client

tls_role-eq-client : (side : Side) → tls_role side ≡ client
unfolding tls_role
tls_role-eq-client opened = refl
tls_role-eq-client accepted = refl

pub data Stream (Tls : Type 0) : Type 0 where
  plain : String → Stream Tls
  secured : Tls → Stream Tls

-- What `handshake` answers depends on the part that the peer plays.
pub record Network (ClientConfig Name Tls : Type 0) : Type 0 where
  pub parse_ip : String → Option IpAddr
  pub bind : ℕ → Bool
  pub tls_config : Result ClientConfig
  pub server_name : String → Option Name
  pub handshake : TlsRole → TlsRole → ClientConfig → Name → Option Tls

module _ {ClientConfig Name Tls : Type 0} (net : Network ClientConfig Name Tls) where
  abbrev bound : ℕ → Result (Unit {0})
  bound port = or_error io_error (if net.bind port then some tt else none)

  abbrev secure_stream : TlsRole → TlsRole → String → Result (Stream Tls)
  secure_stream own peer target = do
    config ← net.tls_config
    name ← or_error tls_error (net.server_name target)
    tls ← or_error tls_error (net.handshake own peer config name)
    ok (secured tls)

  abbrev plain_stream : String → ℕ → Result (Stream Tls)
  plain_stream target port = ok (plain (text_append target (text_append ":" (decimal port))))

  -- A socket has come about on the given side, to a peer that plays the given part.
  unfoldable pub open_direct : Side → TlsRole → String → ℕ → Result (Stream Tls)
  open_direct side peer target port = bound port >>= λ _.
      if not (is_local_ip net.parse_ip target)
      then secure_stream (tls_role side) peer target
      else plain_stream target port

  secure_stream_fails :
      (target : String) (stream : Stream Tls)
      → ((config : ClientConfig) (name : Name) → net.handshake client client config name ≡ none)
      → secure_stream client client target ≢ ok stream
  secure_stream_fails target stream two_clients h = elim (Result-cases net.tls_config) [
    | inr (x, e) ↦ ground (arith, e, h)
    | inl (config, e) ↦ elim (Option-cases (net.server_name target)) [
      | inl f ↦ ground (arith, e, f, h)
      | inr (name, f) ↦ ground (arith, e, f, h, two_clients config name)
    ]
  ]

  -- Where TLS needs a client and a server, a node that meets another one whose address is not local
  -- gets no stream, whichever of them opened the connection and whichever accepted it.
  pub open_direct_fails :
      (side peer_side : Side) (target : String) (port : ℕ) (stream : Stream Tls)
      → ((config : ClientConfig) (name : Name) → net.handshake client client config name ≡ none)
      → is_local_ip net.parse_ip target ≡ false
      → open_direct side (tls_role peer_side) target port ≢ ok stream
  unfolding open_direct
  open_direct_fails side peer_side target port stream two_clients remote h = ground (
    arith,
    secure_stream_fails target stream two_clients,
    tls_role-eq-client side,
    tls_role-eq-client peer_side,
  )
