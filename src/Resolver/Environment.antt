-- ===== src/Resolver/Environment.antt =====
-- What the resolver asks of the crates tokio and rand and of the clocks, and its use of the cache.
use rust_dns_server.Base.{ℕ, Bool, Option, List, Bytes}
use rust_dns_server.Name.{DnsName}
use rust_dns_server.Codes.RecordType.{RecordType}
use rust_dns_server.Rdata.{Ipv4Addr}
use rust_dns_server.Record.{DnsRecord}
use rust_dns_server.Cache
use rust_dns_server.Cache.{CacheEntry, CacheKey}
use rust_dns_server.Cache.Lru.{LruCache}
use rust_dns_server.Action.{Action, perform, modify, ◌>>=◌}

-- `SocketAddr`. The resolver makes IPv4 addresses only.
pub record SocketAddr : Type 0 where
  pub ip : Ipv4Addr
  pub port : ℕ

-- `timeout(QUERY_TIMEOUT, socket.recv_from(&mut buf))`
pub data Received : Type 0 where
  datagram : Bytes → Received
  recv_error : Received
  timed_out : Received

-- The cache, which other tasks share, and all else that there is.
pub record World (lru : LruCache CacheKey CacheEntry) (Env : Type 0) : Type 0 where
  pub cache : LruCache.Cache lru
  pub env : Env

-- Each operation may change the whole world, the cache included: other tasks run meanwhile.
pub record Network (W : Type 0) : Type 0 where
  -- `rng.gen::<u16>()` and `rng.gen::<usize>()`
  pub random_u16 : W → ℕ × W
  pub random_usize : W → ℕ × W
  -- `Instant::now` in nanoseconds, and `SystemTime::now` in seconds since the epoch: `none` before it
  pub instant : W → ℕ × W
  pub seconds : W → Option ℕ × W
  -- `UdpSocket::bind`, `send_to` and `recv_from`; `false` is an error
  pub bind_udp : W → Bool × W
  pub send_udp : Bytes → SocketAddr → W → Bool × W
  pub recv_udp : W → Received × W
  -- `TcpStream::connect` with its timeout, `write_all`, and `read_exact` of that many bytes
  pub connect_tcp : SocketAddr → W → Bool × W
  pub write_tcp : Bytes → W → Bool × W
  pub read_tcp : ℕ → W → Option Bytes × W

module _ (lru : LruCache CacheKey CacheEntry) {Env : Type 0} (net : Network (World lru Env)) where
  -- `self.cache.lookup(name, record_type)`. The second reading of the clock is that of `remaining_ttl`.
  unfoldable pub cache_lookup :
      DnsName → RecordType → Action (World lru Env) (Option (List DnsRecord))
  cache_lookup name record_type = perform net.instant >>= λ now. perform net.instant >>= λ later.
      perform λ w.
        let (answer, cache) =
          Cache.lookup lru now later (record { name = name; record_type = record_type }) w.cache in
        (answer, record w { cache = cache })

  -- `self.cache.insert(name, record_type, records)`
  unfoldable pub cache_insert :
      DnsName → RecordType → List DnsRecord → Action (World lru Env) (Unit {0})
  cache_insert name record_type records = perform net.instant >>= λ now. modify λ w. record w {
    cache =
        Cache.insert lru now (record { name = name; record_type = record_type }) records w.cache;
  }
