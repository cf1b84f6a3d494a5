-- ===== src/Resolver/Safety/Query.antt =====
-- `query_nameservers` keeps what the world keeps, and panics on no index and no remainder if there is
-- a server.
use rust_dns_server.Base.{
  ℕ, ◌<◌, ◌≡◌, ◌≢◌, refl, Bool, true, false, Option, none, some, List, [], ◌∷◌, length,
  get_elem?-lt, take, All, arith, ◌==◌, Bytes, ==_iff,
}
use rust_dns_server.Text.{TextLib}
use rust_dns_server.Reader
use rust_dns_server.Reader.{Outcome}
use rust_dns_server.Name.{DnsName}
use rust_dns_server.Codes.RecordType.{RecordType}
use rust_dns_server.Record.{DnsRecord}
use rust_dns_server.Message
use rust_dns_server.Message.{DnsMessage}
use rust_dns_server.Cache.{CacheEntry, CacheKey}
use rust_dns_server.Cache.Lru.{LruCache}
use rust_dns_server.Action.{Action, Attempt, success, error, perform}
use rust_dns_server.Action.Keeps.{
  Runs, Runs-pure, Runs-fail, Runs-give_up, Runs-panic, Runs-perform, Runs-bind, Runs-attempt,
  Runs-if, Succeeds,
}
use rust_dns_server.Resolver.Environment.{
  SocketAddr, World, Network, Received, datagram, recv_error, timed_out,
}
use rust_dns_server.Resolver.Query.{
  or_fail, some_or_fail, message_or_fail, length_of, query_tcp, tcp_or, accept, on_message,
  on_received, try_server, with_server, try_servers, draw_offset, query_nameservers,
}
use rust_dns_server.Resolver.Safety.{Hosts, IsSafe}

module _ ⦃t : TextLib⦄ (lru : LruCache CacheKey CacheEntry) {Env : Type 0}
    (net : Network (World lru Env)) {P : World lru Env → Type 0} {may_panic : Type 0}
    {Fits : RecordType → DnsRecord → Type 0} (hosts : Hosts lru net P may_panic Fits) where
  abbrev Safe : {A : Type 0} → Action (World lru Env) A → Type 0
  Safe = IsSafe lru net hosts

  perform-Safe :
      {A : Type 0} (f : World lru Env → A × World lru Env)
      → ((w : World lru Env) → P w → P (f w).1)
      → Safe (perform f)
  perform-Safe f k = Runs-perform f k (λ w h. tt)

  or_fail-Safe : (b : Bool) → Safe (or_fail net b)
  unfolding or_fail
  or_fail-Safe true = Runs-pure tt tt
  or_fail-Safe false = Runs-fail _

  some_or_fail-Runs :
      {A : Type 0} (Q : A → Type 0) (o : Option A)
      → ((a : A) → o ≡ some a → Q a)
      → Runs P may_panic Q (some_or_fail net o)
  unfolding some_or_fail
  some_or_fail-Runs Q (some a) k = Runs-pure a (k a refl)
  some_or_fail-Runs Q none k = Runs-fail _

  length_of-Safe : (bytes : Bytes) → Safe (length_of net bytes)
  unfolding length_of
  length_of-Safe [] = Runs-fail _
  length_of-Safe (a ∷ []) = Runs-fail _
  length_of-Safe (a ∷ b ∷ []) = Runs-pure _ tt
  length_of-Safe (a ∷ b ∷ c ∷ bytes) = Runs-fail _

  message_or_fail-Safe :
      (m : Outcome DnsMessage) → (m ≡ Reader.panic → may_panic) → Safe (message_or_fail net m)
  unfolding message_or_fail
  message_or_fail-Safe (Reader.ok m o) k = Runs-pure m tt
  message_or_fail-Safe (Reader.err e o) k = Runs-fail _
  message_or_fail-Safe Reader.panic k = Runs-panic (k refl)
  message_or_fail-Safe Reader.stuck k = Runs-give_up

  -- Bytes that make the parser panic only if `may_panic`.
  abbrev Reads : Bytes → Type 0
  Reads bytes = Message.parse bytes ≡ Reader.panic → may_panic

  query_tcp-Safe :
      (name : DnsName) (record_type : RecordType) (server : SocketAddr)
      → Safe (query_tcp net name record_type server)
  unfolding query_tcp
  query_tcp-Safe name record_type server =
      Runs-bind {Q = λ _. Unit {0}} _ _ (perform-Safe _ (hosts.connect_tcp server)) λ connected _.
        Runs-bind {Q = λ _. Unit {0}} _ _ (or_fail-Safe connected) λ _ _.
          Runs-bind {Q = λ _. Unit {0}} _ _ (perform-Safe _ hosts.random_u16) λ id _.
            Runs-bind {Q = λ _. Unit {0}} _ _ (perform-Safe _ (hosts.write_tcp _))
              λ prefix_written _.
                Runs-bind {Q = λ _. Unit {0}} _ _ (or_fail-Safe prefix_written) λ _ _.
                  Runs-bind {Q = λ _. Unit {0}} _ _ (perform-Safe _ (hosts.write_tcp _))
                    λ written _. Runs-bind {Q = λ _. Unit {0}} _ _ (or_fail-Safe written) λ _ _.
                      Runs-bind {Q = λ _. Unit {0}} _ _ (perform-Safe _ (hosts.read_tcp 2))
                        λ len_buf _.
                          Runs-bind {Q = λ _. Unit {0}} _ _
                            (some_or_fail-Runs (λ _. Unit {0}) len_buf (λ a e. tt))
                            λ prefix _.
                              Runs-bind {Q = λ _. Unit {0}} _ _ (length_of-Safe prefix)
                                λ resp_len _.
                                  Runs-bind
                                    {Q = λ (o : Option Bytes).
                                      (bytes : Bytes) → o ≡ some bytes → Reads bytes}
                                    _ _
                                    (Runs-perform _ (hosts.read_tcp resp_len)
                                      (hosts.tcp_reads resp_len))
                                    λ resp_buf reads.
                                      Runs-bind {Q = Reads} _ _
                                        (some_or_fail-Runs Reads resp_buf reads)
                                        λ resp good. message_or_fail-Safe (Message.parse resp) good

  accept-Safe :
      (name : DnsName) (record_type : RecordType) (ns : SocketAddr) (response : DnsMessage)
      → Safe (accept net name record_type ns response)
  unfolding accept tcp_or
  accept-Safe name record_type ns response =
      Runs-if response.header.truncated _ _
        (λ cut.
          Runs-bind {Q = Succeeds (λ _. Unit {0})} _ _
            (Runs-attempt _ (query_tcp-Safe name record_type ns)) λ r _. tcp_or-Safe r)
        (λ whole. Runs-pure response tt)
    where
      tcp_or-Safe : (r : Attempt DnsMessage) → Safe (tcp_or net response r)
      tcp_or-Safe (success m) = Runs-pure m tt
      tcp_or-Safe (error code) = Runs-pure response tt

  module _ (id : ℕ) (name : DnsName) (record_type : RecordType)
      (next : Action (World lru Env) DnsMessage) (k : Safe next) where
    on_message-Safe :
        (ns : SocketAddr) (m : Outcome DnsMessage)
        → (m ≡ Reader.panic → may_panic)
        → Safe (on_message net id name record_type ns next m)
    unfolding on_message
    on_message-Safe ns (Reader.ok response o) q =
        Runs-if (response.header.id == id) _ _ (λ _. accept-Safe name record_type ns response)
          (λ _. k)
    on_message-Safe ns (Reader.err e o) q = k
    on_message-Safe ns Reader.panic q = Runs-panic (q refl)
    on_message-Safe ns Reader.stuck q = Runs-give_up

    on_received-Safe :
        (ns : SocketAddr) (r : Received)
        → ((bytes : Bytes) → r ≡ datagram bytes → Reads (take 4096 bytes))
        → Safe (on_received net id name record_type ns next r)
    unfolding on_received
    on_received-Safe ns (datagram bytes) q = on_message-Safe ns _ (q bytes refl)
    on_received-Safe ns recv_error q = k
    on_received-Safe ns timed_out q = k

    try_server-Safe :
        (query_bytes : Bytes) (ns : SocketAddr)
        → Safe (try_server net id query_bytes name record_type ns next)
    unfolding try_server
    try_server-Safe query_bytes ns =
        Runs-bind {Q = λ _. Unit {0}} _ _ (perform-Safe _ (hosts.send_udp query_bytes ns)) λ sent _.
          Runs-if sent _ _
            (λ _.
              Runs-bind
                {Q = λ (r : Received).
                  (bytes : Bytes) → r ≡ datagram bytes → Reads (take 4096 bytes)}
                _ _ (Runs-perform _ hosts.recv_udp hosts.udp_reads)
                λ r reads. on_received-Safe ns r reads)
            (λ _. k)

  try_servers-Safe :
      (id : ℕ) (query_bytes : Bytes) (name : DnsName) (record_type : RecordType)
      (nameservers : List SocketAddr) (offsets : List ℕ)
      → All (λ i. i < length nameservers) offsets
      → Safe (try_servers net id query_bytes name record_type nameservers offsets)
  unfolding try_servers with_server
  try_servers-Safe id query_bytes name record_type nameservers [] h = Runs-fail _
  try_servers-Safe id query_bytes name record_type nameservers (i ∷ offsets) h =
      let (ns, e) = get_elem?-lt nameservers i h.0 in
      let next = try_servers net id query_bytes name record_type nameservers offsets in
      rw (e, with_server)
        (try_server-Safe id name record_type next
          (try_servers-Safe id query_bytes name record_type nameservers offsets h.1) query_bytes ns)

  draw_offset-Runs :
      (i count : ℕ) → count ≢ 0 → Runs P may_panic (λ o. o < count) (draw_offset net i count)
  unfolding draw_offset
  draw_offset-Runs i count some_count =
      Runs-bind {Q = λ _. Unit {0}} _ _ (perform-Safe _ hosts.random_usize) λ r _.
        Runs-if (count == 0) _ _ (λ zero_count. absurd (some_count ((==_iff count 0).0 zero_count)))
          (λ _. Runs-pure _ (grind arith))

  pub query_nameservers-Safe :
      (enable_dnssec : Bool) (name : DnsName) (record_type : RecordType)
      (nameservers : List SocketAddr)
      → length nameservers ≢ 0
      → Safe (query_nameservers net enable_dnssec name record_type nameservers)
  unfolding query_nameservers
  query_nameservers-Safe enable_dnssec name record_type nameservers some_server =
      Runs-bind {Q = λ _. Unit {0}} _ _ (perform-Safe _ hosts.bind_udp) λ bound _.
        Runs-bind {Q = λ _. Unit {0}} _ _ (or_fail-Safe bound) λ _ _.
          Runs-bind {Q = λ _. Unit {0}} _ _ (perform-Safe _ hosts.random_u16) λ id _.
            Runs-bind {Q = λ o. o < length nameservers} _ _ (draw_offset-Runs 0 _ some_server)
              λ first h0.
                Runs-bind {Q = λ o. o < length nameservers} _ _ (draw_offset-Runs 1 _ some_server)
                  λ second h1.
                    Runs-bind {Q = λ o. o < length nameservers} _ _
                      (draw_offset-Runs 2 _ some_server)
                      λ third h2.
                        try_servers-Safe id _ name record_type nameservers
                          (first ∷ second ∷ third ∷ []) (h0, (h1, (h2, tt)))
