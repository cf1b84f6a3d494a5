-- ===== src/Server.antt =====
-- `DnsServer` of src/server/mod.rs: from the bytes of a query to the bytes of the reply, over UDP and
-- TCP. The sockets are not modelled: a handler maps what was read to what is written. The tasks that
-- the loops over the sockets start are in Service.
pub mod Answers
pub mod Framing
pub mod Ends
pub mod Local
pub mod Listeners
pub mod Unanswered
pub mod Denied
use rust_dns_server.Base.{
  ℕ, ◌%◌, ◌/◌, Bool, true, List, [], ◌∷◌, ◌++◌, Option, none, some, length, ltb, leb, take, drop,
  if◌then◌else◌, Bytes, to_be16, from_be16,
}
use rust_dns_server.Text.{TextLib}
use rust_dns_server.Error.{DnsError}
use rust_dns_server.Reader.{Outcome, ok, err, panic, stuck}
use rust_dns_server.Name.{DnsName}
use rust_dns_server.Codes.RecordType.{RecordType}
use rust_dns_server.Codes.ResponseCode
use rust_dns_server.Codes.ResponseCode.{ResponseCode}
use rust_dns_server.Record.{DnsRecord}
use rust_dns_server.Question.{DnsQuestion}
use rust_dns_server.Message
use rust_dns_server.Message.{DnsMessage}
use rust_dns_server.Action
use rust_dns_server.Action.{Action, Answer}

-- `Result<Vec<DnsRecord>, ResponseCode>`, the result of `Resolver::resolve`.
pub data Resolved : Type 0 where
  records : List DnsRecord → Resolved
  failed : ResponseCode → Resolved

-- What a handler ends with: bytes to send, an error that is logged, or a panic of its task, and
-- `unfinished` where the model's fuel ran out.
pub data Handled : Type 0 where
  reply : Bytes → Handled
  dropped : DnsError → Handled
  panicked : Handled
  unfinished : Handled

-- `response.header.response_code = code`
abbrev pub with_code : ResponseCode → DnsMessage → DnsMessage
with_code code m = record m { header = record (m.header) { response_code = code } }

-- The `match` on the resolver's result.
unfoldable pub fill : DnsMessage → Resolved → DnsMessage
fill response (records []) = with_code ResponseCode.no_error response
fill response (records (r ∷ rs)) = record (with_code ResponseCode.no_error response) {
  answers = r ∷ rs;
}
fill response (failed code) = with_code code response

-- `response.header.truncated = true`, and the three sections cut to nothing.
unfoldable pub truncate : DnsMessage → DnsMessage
truncate m = record {
  header = record (m.header) { truncated = true };
  questions = m.questions;
  answers = [];
  authorities = [];
  additional = [];
}

-- A TCP message behind its length, `len() as u16`.
unfoldable pub tcp_frame : Bytes → Bytes
tcp_frame bytes = to_be16 (length bytes % 65536) ++ bytes

-- `read_exact` of two bytes, and then of as many as they say: the message and the bytes behind it.
-- `none` is a stream that ends too soon. (`msg_len > 65535` never holds of a 16-bit length.)
unfoldable pub tcp_read : Bytes → Option (Bytes × Bytes)
tcp_read (a ∷ b ∷ rest) =
    let msg_len = from_be16 a b in
    if ltb 65535 msg_len
    then none
    else if leb msg_len (length rest)
    then some (take msg_len rest, drop msg_len rest)
    else none
tcp_read _ = none

module _ ⦃t : TextLib⦄ where
  -- What the UDP task sends for the handler's result.
  unfoldable pub udp_send : Handled → Handled
  udp_send (reply bytes) =
      if ltb 512 (length bytes)
      then (elim (Message.parse bytes) [
        | ok response o ↦ reply (Message.serialize (truncate response))
        | err e o ↦ dropped e
        | panic ↦ panicked
        | stuck ↦ unfinished
      ])
      else reply bytes
  udp_send other = other

unfoldable pub tcp_send : Handled → Handled
tcp_send (reply bytes) = reply (tcp_frame bytes)
tcp_send other = other

-- The reply to a query for how the resolver ends.
unfoldable pub respond : DnsMessage → Answer (List DnsRecord) → Handled
respond query (Action.done rs) =
    reply (Message.serialize (fill (Message.make_response query) (records rs)))
respond query (Action.failed code) =
    reply (Message.serialize (fill (Message.make_response query) (failed code)))
respond query Action.panicked = panicked
respond query Action.unfinished = unfinished

-- `S` is what the resolver reads and changes: the cache, the zones, the network.
module _ ⦃t : TextLib⦄ {S : Type 0}
    (resolve : DnsName → RecordType → Action S (List DnsRecord)) where
  unfoldable pub answer : DnsMessage → List DnsQuestion → S → Handled × S
  answer query [] s =
      (reply (Message.serialize (Message.make_error_response query ResponseCode.format_error)), s)
  answer query (q ∷ qs) s =
      let (resolved, s') = resolve q.name q.record_type s in (respond query resolved, s')

  unfoldable pub handle_query : Bytes → S → Handled × S
  handle_query bytes s = elim (Message.parse bytes) [
    | ok query o ↦ answer query query.questions s
    | err e o ↦ (dropped e, s)
    | panic ↦ (panicked, s)
    | stuck ↦ (unfinished, s)
  ]

  unfoldable pub udp_task : Bytes → S → Handled × S
  udp_task bytes s = let (handled, s') = handle_query bytes s in (udp_send handled, s')

  -- The TCP task on all that the client sends.
  unfoldable pub tcp_task : Bytes → S → Option (Handled × S)
  tcp_task stream s = elim (tcp_read stream) [
    | none ↦ none
    | some (msg, rest) ↦ some (tcp_send (handle_query msg s).0, (handle_query msg s).1)
  ]
