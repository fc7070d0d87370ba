-- ===== src/Node/Ports.antt =====
-- CPCluster_node/src/internet_ports.rs: sockets on the configured ports, handed out in turn.
pub mod Turns
use cpcluster.Prelude.{ℕ, ◌+◌, ◌%◌, ◌^◌, Option, none, some, List, [], ◌∷◌, get_elem?, length}

-- What the operating system gives: a socket on a port or an error, and the port of a listener.
pub record Sockets : Type 1 where
  pub TcpListener : Type 0
  pub UdpSocket : Type 0
  pub bind_tcp : ℕ → Option TcpListener
  pub bind_udp : ℕ → Option UdpSocket
  pub local_port : TcpListener → Option ℕ

-- `push`, where the bind succeeded.
abbrev pub push_ok : {A : Type 0} → Option A → List A → List A
push_ok none rest = rest
push_ok (some s) rest = s ∷ rest

module _ (os : Sockets) where
  open os use {TcpListener, UdpSocket, bind_tcp, bind_udp, local_port}

  pub record InternetPorts : Type 0 where
    pub tcp : List TcpListener
    pub udp : List UdpSocket
    pub tcp_idx : ℕ
    pub udp_idx : ℕ

  unfoldable pub bound_tcp : List ℕ → List TcpListener
  bound_tcp [] = []
  bound_tcp (p ∷ ports) = push_ok (bind_tcp p) (bound_tcp ports)

  unfoldable pub bound_udp : List ℕ → List UdpSocket
  bound_udp [] = []
  bound_udp (p ∷ ports) = push_ok (bind_udp p) (bound_udp ports)

  unfoldable pub bind : List ℕ → InternetPorts
  bind ports = record { tcp = bound_tcp ports; udp = bound_udp ports; tcp_idx = 0; udp_idx = 0 }

  -- `Clone`: the copy has counters of its own.
  unfoldable pub clone : InternetPorts → InternetPorts
  clone p = record { tcp = p.tcp; udp = p.udp; tcp_idx = p.tcp_idx; udp_idx = p.udp_idx }

  abbrev port_at : Option TcpListener → Option ℕ
  port_at none = none
  port_at (some listener) = local_port listener

  -- `fetch_add` wraps around at 2 ^ 64.
  unfoldable pub tcp_port : InternetPorts → Option ℕ × InternetPorts
  tcp_port p = elim p.tcp [
    | [] ↦ (none, p)
    | l ∷ ls ↦ (
      port_at (get_elem? (l ∷ ls) (p.tcp_idx % length (l ∷ ls))),
      record p { tcp_idx = (p.tcp_idx + 1) % 2 ^ 64 },
    )
  ]

  unfoldable pub udp_socket : InternetPorts → Option UdpSocket × InternetPorts
  udp_socket p = elim p.udp [
    | [] ↦ (none, p)
    | s ∷ ss ↦ (
      get_elem? (s ∷ ss) (p.udp_idx % length (s ∷ ss)),
      record p { udp_idx = (p.udp_idx + 1) % 2 ^ 64 },
    )
  ]
