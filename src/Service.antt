-- ===== src/Service.antt =====
-- The tasks that `DnsServer::run` of src/server/mod.rs and `DohServer::run` of src/doh/mod.rs start for
-- their clients, each as a function of the state that they share. A task waits for its client, for
-- sockets and for clocks; what other tasks do to the state meanwhile is in the operations of the
-- network, which may change all of it. `Peer` is the address of a client.
pub mod Invariant
pub mod Launch
pub mod Launched
use rust_dns_server.Base.{◌≡◌, Bool, true, false, Option, none, some, List, [], ◌∷◌, ◌++◌, Bytes}
use mathlib.Core.List.{Memᴰ}
use rust_dns_server.Text.{Text, TextLib}
use rust_dns_server.Name.{DnsName}
use rust_dns_server.Codes.RecordType.{RecordType}
use rust_dns_server.Record.{DnsRecord}
use rust_dns_server.Action.{Action}
use rust_dns_server.Server
use rust_dns_server.Server.{Handled, udp_task, tcp_task}
use rust_dns_server.Server.Listeners.{received}
use rust_dns_server.Doh
use rust_dns_server.Doh.{HttpRequest, HttpResponse, HttpResult, handle_request}
use rust_dns_server.Doh.Listener.{serves}

module _ (Peer : Type 0) where
  -- A task with what it was given: a datagram, all that a TCP client sends, an HTTP request.
  pub data Task : Type 0 where
    udp_query : Bytes → Peer → Task
    tcp_query : Bytes → Peer → Task
    https_query : HttpRequest → Peer → Task

  -- What a task hands to a socket.
  pub data Sent : Type 0 where
    datagram : Bytes → Peer → Sent
    written : Bytes → Peer → Sent
    responded : HttpResponse → Peer → Sent

module _ {Peer : Type 0} where
  -- `none` is a task that the model's rounds do not bring to its end: it goes on.
  unfoldable pub udp_out : Peer → Handled → Option (List (Sent Peer))
  udp_out peer (Server.reply bytes) = some (datagram bytes peer ∷ [])
  udp_out peer (Server.dropped e) = some []
  udp_out peer Server.panicked = some []
  udp_out peer Server.unfinished = none

  unfoldable pub tcp_out : Peer → Handled → Option (List (Sent Peer))
  tcp_out peer (Server.reply bytes) = some (written bytes peer ∷ [])
  tcp_out peer (Server.dropped e) = some []
  tcp_out peer Server.panicked = some []
  tcp_out peer Server.unfinished = none

  unfoldable pub https_out : Peer → HttpResult → Option (List (Sent Peer))
  https_out peer (Doh.response answer) = some (responded answer peer ∷ [])
  https_out peer Doh.failure = some []
  https_out peer Doh.panicked = some []
  https_out peer Doh.unfinished = none

-- What `main` leaves while it waits for `dns_server.run()`: the state that the tasks share.
pub record Running (Acceptor S : Type 0) : Type 0 where
  pub world : S
  -- The loop of the HTTPS listener, if it runs, with its acceptor.
  pub doh : Option (Option Acceptor)

-- `decode` and `resolve` are those of `handle_request`.
module _ ⦃t : TextLib⦄ (decode : Text → Option Bytes) {S : Type 0}
    (resolve : DnsName → RecordType → Action S (List DnsRecord)) {Peer : Type 0} where
  unfoldable pub run_tcp : Peer → S → Option (Handled × S) → Option (List (Sent Peer)) × S
  run_tcp peer s none = (some [], s)
  run_tcp peer s (some (handled, s')) = (tcp_out peer handled, s')

  unfoldable pub run_task : Task Peer → S → Option (List (Sent Peer)) × S
  run_task (udp_query payload peer) s =
      let (handled, s') = udp_task resolve payload s in (udp_out peer handled, s')
  run_task (tcp_query stream peer) s = run_tcp peer s (tcp_task resolve stream s)
  run_task (https_query req peer) s =
      let (result, s') = handle_request decode resolve req s in (https_out peer result, s')
