-- ===== src/Server/Listeners.antt =====
-- `DnsServer::new`, the start of `DnsServer::run`, and what the loops of `run_udp` and `run_tcp` start,
-- src/server/mod.rs. The sockets are parameters.
use rust_dns_server.Base.{ℕ, Bool, false, take, Bytes, if◌then◌else◌}
use rust_dns_server.Text.{Text}

-- The resolver is the parameter of the tasks.
pub record DnsServer : Type 0 where
  pub udp_addr : Text
  pub tcp_addr : Text

unfoldable pub new : Text → DnsServer
new listen_addr = record { udp_addr = listen_addr; tcp_addr = listen_addr }

-- `UdpSocket::bind` and `TcpListener::bind`; `false` is an error.
pub record Sockets : Type 0 where
  pub bind_udp : Text → Bool
  pub bind_tcp : Text → Bool

-- `run` up to its `select!`: whether both sockets are bound.
unfoldable pub binds : Sockets → DnsServer → Bool
binds sockets server =
    if sockets.bind_udp server.udp_addr then sockets.bind_tcp server.tcp_addr else false

-- `vec![0u8; 4096]`: what is longer in a datagram is lost.
abbrev pub buffer_size : ℕ
buffer_size = 4096

unfoldable pub received : Bytes → Bytes
received payload = take buffer_size payload
