-- ===== src/Resolver/Silence.antt =====
-- What `Resolver::resolve` of src/resolver/mod.rs returns when no server answers.
use rust_dns_server.Base.{
  ℕ, ◌+◌, ◌%◌, ◌<◌, ◌≡◌, ◌≢◌, refl, ◌⊎◌, inl, inr, Bool, List, [], ◌∷◌, length, get_elem?-lt, All,
  arith, Bytes, Bool-cases, lt→==_false,
}
use rust_dns_server.Text.{TextLib}
use rust_dns_server.Name.{DnsName}
use rust_dns_server.Codes.RecordType.{RecordType}
use rust_dns_server.Codes.ResponseCode
use rust_dns_server.Message
use rust_dns_server.Message.{DnsMessage}
use rust_dns_server.Action.{Action, done, failed, perform, pure, fail, ◌>>=◌}
use rust_dns_server.Resolver.Environment.{
  SocketAddr, Network, Received, datagram, recv_error, timed_out,
}
use rust_dns_server.Resolver.Query.{
  or_fail, on_received, try_server, with_server, try_servers, draw_offset, query_nameservers,
  udp_query,
}

Received-cases :
    (r : Received) → ((bytes : Bytes) × (r ≡ datagram bytes)) ⊎ ((r ≡ recv_error) ⊎ (r ≡ timed_out))
Received-cases (datagram bytes) = inl (bytes, refl)
Received-cases recv_error = inr (inl refl)
Received-cases timed_out = inr (inr refl)

module _ ⦃t : TextLib⦄ {W : Type 0} (net : Network W) where
  -- Nothing ever arrives: each wait for a datagram ends in an error or in a timeout.
  abbrev pub IsSilent : Type 0
  IsSilent = (w : W) (bytes : Bytes) → (net.recv_udp w).0 ≢ datagram bytes

  try_server-next :
      (id : ℕ) (query_bytes : Bytes) (name : DnsName) (record_type : RecordType) (ns : SocketAddr)
      (next : Action W DnsMessage) (w : W)
      → IsSilent
      → (w' : W) × (try_server net id query_bytes name record_type ns next w ≡ next w')
  unfolding try_server ◌>>=◌ perform on_received
  try_server-next id query_bytes name record_type ns next w quiet =
      let w₁ = (net.send_udp query_bytes ns w).1 in
      elim (Bool-cases (net.send_udp query_bytes ns w).0) [
        | inr unsent ↦ (w₁, rw unsent refl)
        | inl sent ↦ elim (Received-cases (net.recv_udp w₁).0) [
          | inl (bytes, arrived) ↦ absurd (quiet w₁ bytes arrived)
          | inr (inl broken) ↦ ((net.recv_udp w₁).1, rw (sent, broken) refl)
          | inr (inr late) ↦ ((net.recv_udp w₁).1, rw (sent, late) refl)
        ]
      ]

  try_servers-fails :
      (id : ℕ) (query_bytes : Bytes) (name : DnsName) (record_type : RecordType)
      (servers : List SocketAddr) (offsets : List ℕ) (w : W)
      → IsSilent
      → All (λ i. i < length servers) offsets
      → (try_servers net id query_bytes name record_type servers offsets w).0
        ≡ failed ResponseCode.server_failure
  unfolding try_servers with_server fail
  try_servers-fails id query_bytes name record_type servers [] w quiet fit = refl
  try_servers-fails id query_bytes name record_type servers (i ∷ offsets) w quiet fit =
      let (ns, here) = get_elem?-lt servers i fit.0 in
      let next = try_servers net id query_bytes name record_type servers offsets in
      let (w', same) = try_server-next id query_bytes name record_type ns next w quiet in
      rw (here, same)
        (try_servers-fails id query_bytes name record_type servers offsets w' quiet fit.1)

  -- The index that `draw_offset` yields, below the number of servers.
  draw_offset-done :
      (i count : ℕ) (w : W)
      → 0 < count
      → (o : ℕ) × (o < count) × (draw_offset net i count w ≡ (done o, (net.random_usize w).1))
  unfolding draw_offset ◌>>=◌ perform pure
  draw_offset-done i count w positive = (
    (i + (net.random_usize w).0) % 18446744073709551616 % count,
    ground arith,
    rw (lt→==_false count 0 positive) refl,
  )

  pub query_nameservers-fails :
      (enable_dnssec : Bool) (name : DnsName) (record_type : RecordType) (servers : List SocketAddr)
      (w : W)
      → IsSilent
      → 0 < length servers
      → (query_nameservers net enable_dnssec name record_type servers w).0
        ≡ failed ResponseCode.server_failure
  unfolding query_nameservers or_fail ◌>>=◌ perform pure fail
  query_nameservers-fails enable_dnssec name record_type servers w quiet positive =
      let w₁ = (net.bind_udp w).1 in
      let w₂ = (net.random_u16 w₁).1 in
      let (first, below₁, drawn₁) = draw_offset-done 0 (length servers) w₂ positive in
      let w₃ = (net.random_usize w₂).1 in
      let (second, below₂, drawn₂) = draw_offset-done 1 (length servers) w₃ positive in
      let w₄ = (net.random_usize w₃).1 in
      let (third, below₃, drawn₃) = draw_offset-done 2 (length servers) w₄ positive in
      elim (Bool-cases (net.bind_udp w).0) [
        | inr unbound ↦ rw unbound refl
        | inl bound ↦
            rw (bound, drawn₁, drawn₂, drawn₃)
              (try_servers-fails (net.random_u16 w₁).0
                (Message.serialize (udp_query enable_dnssec (net.random_u16 w₁).0 name record_type))
                name record_type servers (first ∷ second ∷ third ∷ []) (net.random_usize w₄).1 quiet
                (below₁, (below₂, (below₃, tt))))
      ]
