-- ===== src/Resolver/Found.antt =====
-- What a resolution of src/resolver/mod.rs returns when a root server answers, and what the next
-- resolution of the same question returns.
use rust_dns_server.Base.{
  ℕ, ◌+◌, ◌%◌, ◌<◌, ◌≡◌, refl, Bool, true, false, some, List, length, get_elem?, take, Bytes,
  lt→==_false, ==_iff,
}
use rust_dns_server.Text.{TextLib}
use rust_dns_server.Reader.{ok}
use rust_dns_server.Name.{DnsName}
use rust_dns_server.Codes.RecordType.{RecordType}
use rust_dns_server.Message
use rust_dns_server.Message.{DnsMessage}
use rust_dns_server.Action.{done, perform, pure, fail, ◌>>=◌}
use rust_dns_server.Resolver.Environment.{SocketAddr, Network, datagram}
use rust_dns_server.Resolver.Query.{
  or_fail, on_received, on_message, accept, try_server, with_server, try_servers, draw_offset,
  query_nameservers, udp_query,
}

module _ ⦃t : TextLib⦄ {W : Type 0} (net : Network W) where
  -- The world behind the socket, the id and the three offsets.
  abbrev pub drawn : W → W
  drawn w =
      (net.random_usize
        (net.random_usize (net.random_usize (net.random_u16 (net.bind_udp w).1).1).1).1).1

  abbrev pub drawn_id : W → ℕ
  drawn_id w = (net.random_u16 (net.bind_udp w).1).0

  -- The first offset, which picks the server.
  abbrev pub drawn_offset : ℕ → W → ℕ
  drawn_offset count w =
      (0 + (net.random_usize (net.random_u16 (net.bind_udp w).1).1).0)
      % 18446744073709551616
      % count

  abbrev pub query_of : Bool → DnsName → RecordType → W → Bytes
  query_of enable_dnssec name record_type w =
      Message.serialize (udp_query enable_dnssec (drawn_id w) name record_type)

  -- From `w` a query can be sent to the server that is picked, and a whole response with its id comes
  -- back first.
  pub record Exchange (enable_dnssec : Bool) (name : DnsName) (record_type : RecordType)
      (servers : List SocketAddr) (w : W) (response : DnsMessage) : Type 0 where
    pub server : SocketAddr
    pub payload : Bytes
    pub read_until : ℕ
    pub picked : get_elem? servers (drawn_offset (length servers) w) ≡ some server
    pub bound : (net.bind_udp w).0 ≡ true
    pub sent : (net.send_udp (query_of enable_dnssec name record_type w) server (drawn w)).0 ≡ true
    pub arrived :
        (net.recv_udp
          (net.send_udp (query_of enable_dnssec name record_type w) server (drawn w)).1).0
        ≡ datagram payload
    pub parsed : Message.parse (take 4096 payload) ≡ ok response read_until
    pub same_id : response.header.id ≡ drawn_id w
    pub whole : response.header.truncated ≡ false

  -- The world in which the response is there.
  abbrev pub answered :
      {enable_dnssec : Bool} {name : DnsName} {record_type : RecordType} {servers : List SocketAddr}
      {w : W} {response : DnsMessage}
      → Exchange enable_dnssec name record_type servers w response
      → W
  answered {enable_dnssec} {name} {record_type} {w} x =
      (net.recv_udp
        (net.send_udp (query_of enable_dnssec name record_type w) x.server (drawn w)).1).1

  pub query_nameservers-done :
      (enable_dnssec : Bool) (name : DnsName) (record_type : RecordType) (servers : List SocketAddr)
      (w : W) (response : DnsMessage)
      (x : Exchange enable_dnssec name record_type servers w response)
      → 0 < length servers
      → query_nameservers net enable_dnssec name record_type servers w ≡ (done response, answered x)
  unfolding query_nameservers or_fail draw_offset try_servers with_server try_server on_received
      on_message accept ◌>>=◌ perform pure fail
  query_nameservers-done enable_dnssec name record_type servers w response x positive =
      rw
        (
          x.bound,
          lt→==_false (length servers) 0 positive,
          x.picked,
          x.sent,
          x.arrived,
          x.parsed,
          (==_iff response.header.id (drawn_id w)).1 x.same_id,
          x.whole,
        )
        refl
