-- ===== src/Node/Tasks/Network.antt =====
-- CPCluster_node/src/lib.rs: the tasks `Tcp` and `Udp`, over the sockets of the operating system.
use cpcluster.Prelude.{
  ℕ, String, Bool, Option, none, some, Outcome, done, failed, Ran, returned, panicked,
  if◌then◌else◌,
}
use cpcluster.Common.Protocol.{Bytes, TaskResult, bytes, error}
use cpcluster.Node.Ports.{Sockets}

pub record NetworkCalls : Type 1 where
  pub sockets : Sockets
  pub TcpSocket : Type 0
  pub TcpStream : Type 0
  pub SocketAddr : Type 0
  pub parse : String → Option SocketAddr
  pub new_v4 : Outcome TcpSocket
  pub bind_socket : TcpSocket → ℕ → Bool
  pub connect_socket : TcpSocket → SocketAddr → Outcome TcpStream
  pub connect : String → Outcome TcpStream
  pub write_all : TcpStream → Bytes → Outcome TcpStream
  pub read_1024 : TcpStream → Outcome Bytes
  pub bind_any_udp : Outcome sockets.UdpSocket
  pub send_to : sockets.UdpSocket → Bytes → String → Outcome sockets.UdpSocket
  pub recv_1024 : sockets.UdpSocket → Outcome Bytes

module _ (net : NetworkCalls) where
  open net use {
    sockets, SocketAddr, TcpSocket, TcpStream, parse, new_v4, bind_socket, connect_socket, connect,
    write_all, read_1024, bind_any_udp, send_to, recv_1024,
  }

  abbrev pub read_result : Outcome Bytes → TaskResult
  read_result (done b) = bytes b
  read_result (failed e) = error e

  abbrev pub read_reply : Outcome TcpStream → TaskResult
  read_reply (done stream) = read_result (read_1024 stream)
  read_reply (failed e) = error e

  -- After `connect_res`.
  abbrev pub exchange : Bytes → Outcome TcpStream → TaskResult
  exchange payload (done stream) = read_reply (write_all stream payload)
  exchange payload (failed e) = error e

  -- `addr.parse().unwrap()`, and then the connection.
  abbrev pub connect_parsed : TcpSocket → Option SocketAddr → Ran (Outcome TcpStream)
  connect_parsed s none = panicked
  connect_parsed s (some a) = returned (connect_socket s a)

  unfoldable pub connect_from : Option ℕ → String → Ran (Outcome TcpStream)
  connect_from none addr = returned (connect addr)
  connect_from (some inet) addr = elim new_v4 [
    | done s ↦ if bind_socket s inet then connect_parsed s (parse addr) else returned (connect addr)
    | failed e ↦ returned (connect addr)
  ]

  abbrev pub exchanged : Bytes → Ran (Outcome TcpStream) → Ran TaskResult
  exchanged payload (returned res) = returned (exchange payload res)
  exchanged payload panicked = panicked

  unfoldable pub tcp_task : Option ℕ → String → Bytes → Ran TaskResult
  tcp_task inet addr payload = exchanged payload (connect_from inet addr)

  abbrev pub receive : Outcome sockets.UdpSocket → TaskResult
  receive (done sock) = read_result (recv_1024 sock)
  receive (failed e) = error e

  abbrev pub send_and_receive : String → Bytes → Outcome sockets.UdpSocket → TaskResult
  send_and_receive addr payload (done sock) = receive (send_to sock payload addr)
  send_and_receive addr payload (failed e) = error e

  unfoldable pub udp_task : Option sockets.UdpSocket → String → Bytes → TaskResult
  udp_task (some sock) addr payload = send_and_receive addr payload (done sock)
  udp_task none addr payload = send_and_receive addr payload bind_any_udp
