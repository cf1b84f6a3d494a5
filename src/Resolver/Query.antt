-- ===== src/Resolver/Query.antt =====
-- `Resolver::query_nameservers` and `Resolver::query_tcp` of src/resolver/mod.rs.
use rust_dns_server.Base.{
  ℕ, ◌+◌, ◌%◌, Bool, true, false, Option, none, some, List, [], ◌∷◌, length, get_elem?, take, ◌==◌,
  if◌then◌else◌, Bytes, to_be16, from_be16,
}
use rust_dns_server.Text.{TextLib}
use rust_dns_server.Reader
use rust_dns_server.Reader.{Outcome}
use rust_dns_server.Name
use rust_dns_server.Name.{DnsName}
use rust_dns_server.Codes.RecordType.{RecordType}
use rust_dns_server.Codes.RecordClass
use rust_dns_server.Codes.ResponseCode
use rust_dns_server.Rdata
use rust_dns_server.Question
use rust_dns_server.Record.{DnsRecord}
use rust_dns_server.Message
use rust_dns_server.Message.{DnsMessage}
use rust_dns_server.Action.{
  Action, Attempt, success, error, pure, fail, panic, give_up, perform, attempt, ◌>>=◌,
}
use rust_dns_server.Resolver.Environment.{
  SocketAddr, Network, Received, datagram, recv_error, timed_out,
}

-- The OPT record with the DO bit.
abbrev pub opt_record : DnsRecord
opt_record = record {
  name = Name.root;
  record_type = RecordType.opt;
  record_class = RecordClass.unknown 4096;
  ttl = 32768;
  rdata = Rdata.opt [];
}

-- `DnsMessage::new_query(id)` with `recursion_desired` off and the question.
unfoldable pub plain_query : ℕ → DnsName → RecordType → DnsMessage
plain_query id name record_type =
    let query = Message.new_query id in
    record query {
      header = record (query.header) { recursion_desired = false };
      questions = Question.new name record_type ∷ [];
    }

-- The query that goes out over UDP.
unfoldable pub udp_query : Bool → ℕ → DnsName → RecordType → DnsMessage
unfolding plain_query
udp_query enable_dnssec id name record_type =
    let query = plain_query id name record_type in
    if enable_dnssec
    then record query {
      header = record (query.header) { authentic_data = true };
      additional = opt_record ∷ [];
    }
    else query

module _ ⦃t : TextLib⦄ {W : Type 0} (net : Network W) where
  -- `?` on a `Result` that is read as a server failure.
  unfoldable pub or_fail : Bool → Action W (Unit {0})
  or_fail true = pure tt
  or_fail false = fail ResponseCode.server_failure

  unfoldable pub some_or_fail : {A : Type 0} → Option A → Action W A
  some_or_fail (some a) = pure a
  some_or_fail none = fail ResponseCode.server_failure

  -- `DnsMessage::parse(..).map_err(|_| ResponseCode::ServerFailure)`
  unfoldable pub message_or_fail : Outcome DnsMessage → Action W DnsMessage
  message_or_fail (Reader.ok m o) = pure m
  message_or_fail (Reader.err e o) = fail ResponseCode.server_failure
  message_or_fail Reader.panic = panic
  message_or_fail Reader.stuck = give_up

  -- The length prefix of a response.
  unfoldable pub length_of : Bytes → Action W ℕ
  length_of (a ∷ b ∷ []) = pure (from_be16 a b)
  length_of _ = fail ResponseCode.server_failure

  -- The id is drawn, and not compared with that of the response. The two `write_all` calls write
  -- the framed query.
  unfoldable pub query_tcp : DnsName → RecordType → SocketAddr → Action W DnsMessage
  query_tcp name record_type server = do
    connected ← perform (net.connect_tcp server)
    _ ← or_fail connected
    id ← perform net.random_u16
    let query_bytes = Message.serialize (plain_query id name record_type)
    prefix_written ← perform (net.write_tcp (to_be16 (length query_bytes % 65536)))
    _ ← or_fail prefix_written
    written ← perform (net.write_tcp query_bytes)
    _ ← or_fail written
    len_buf ← perform (net.read_tcp 2)
    prefix ← some_or_fail len_buf
    resp_len ← length_of prefix
    resp_buf ← perform (net.read_tcp resp_len)
    resp ← some_or_fail resp_buf
    message_or_fail (Message.parse resp)

  -- A response with the query's id: over TCP where it was cut, if that works.
  unfoldable pub tcp_or : DnsMessage → Attempt DnsMessage → Action W DnsMessage
  tcp_or response (success tcp_response) = pure tcp_response
  tcp_or response (error code) = pure response

  unfoldable pub accept : DnsName → RecordType → SocketAddr → DnsMessage → Action W DnsMessage
  accept name record_type ns response =
      if response.header.truncated
      then (attempt (query_tcp name record_type ns) >>= tcp_or response)
      else pure response

  -- What follows a datagram; `next` is the next try.
  unfoldable pub on_message :
      ℕ
      → DnsName
      → RecordType
      → SocketAddr
      → Action W DnsMessage
      → Outcome DnsMessage
      → Action W DnsMessage
  on_message id name record_type ns next (Reader.ok response o) =
      if response.header.id == id then accept name record_type ns response else next
  on_message id name record_type ns next (Reader.err e o) = next
  on_message id name record_type ns next Reader.panic = panic
  on_message id name record_type ns next Reader.stuck = give_up

  -- The buffer has 4096 bytes; the rest of a datagram is cut off.
  unfoldable pub on_received :
      ℕ → DnsName → RecordType → SocketAddr → Action W DnsMessage → Received → Action W DnsMessage
  on_received id name record_type ns next (datagram bytes) =
      on_message id name record_type ns next (Message.parse (take 4096 bytes))
  on_received id name record_type ns next recv_error = next
  on_received id name record_type ns next timed_out = next

  unfoldable pub try_server :
      ℕ → Bytes → DnsName → RecordType → SocketAddr → Action W DnsMessage → Action W DnsMessage
  try_server id query_bytes name record_type ns next =
      perform (net.send_udp query_bytes ns) >>= λ sent.
      if sent then (perform net.recv_udp >>= on_received id name record_type ns next) else next

  -- `nameservers[ns_idx]`, which panics out of range.
  unfoldable pub with_server :
      Option SocketAddr → (SocketAddr → Action W DnsMessage) → Action W DnsMessage
  with_server none use_server = panic
  with_server (some ns) use_server = use_server ns

  -- The loop over the retries, one for each offset.
  unfoldable pub try_servers :
      ℕ → Bytes → DnsName → RecordType → List SocketAddr → List ℕ → Action W DnsMessage
  try_servers id query_bytes name record_type nameservers [] = fail ResponseCode.server_failure
  try_servers id query_bytes name record_type nameservers (ns_idx ∷ offsets) =
      let next = try_servers id query_bytes name record_type nameservers offsets in
      with_server (get_elem? nameservers ns_idx)
        λ ns. try_server id query_bytes name record_type ns next

  -- `(i + rng.gen::<usize>()) % nameservers.len()`: the remainder by zero panics.
  unfoldable pub draw_offset : ℕ → ℕ → Action W ℕ
  draw_offset i count = perform net.random_usize >>= λ r.
      if count == 0 then panic else pure ((i + r) % 18446744073709551616 % count)

  unfoldable pub query_nameservers :
      Bool → DnsName → RecordType → List SocketAddr → Action W DnsMessage
  query_nameservers enable_dnssec name record_type nameservers = do
    bound ← perform net.bind_udp
    _ ← or_fail bound
    id ← perform net.random_u16
    first ← draw_offset 0 (length nameservers)
    second ← draw_offset 1 (length nameservers)
    third ← draw_offset 2 (length nameservers)
    let query_bytes = Message.serialize (udp_query enable_dnssec id name record_type)
    try_servers id query_bytes name record_type nameservers (first ∷ second ∷ third ∷ [])
