-- ===== src/Resolver/Safety.antt =====
-- What the resolver needs of the world for a property `P` of it to last, and for no panic.
pub mod Fits
pub mod Query
pub mod Chain
pub mod Recursive
pub mod Sources
pub mod Resolve
pub mod Types
pub mod Waits
use rust_dns_server.Base.{ℕ, ◌≡◌, ◌⊎◌, Option, none, some, List, take, Bytes, All}
use rust_dns_server.Text.{TextLib}
use rust_dns_server.Reader
use rust_dns_server.Name.{DnsName}
use rust_dns_server.Codes.RecordType
use rust_dns_server.Codes.RecordType.{RecordType}
use rust_dns_server.Record.{DnsRecord}
use rust_dns_server.Message
use rust_dns_server.Cache
use rust_dns_server.Cache.{CacheEntry, CacheKey}
use rust_dns_server.Cache.Lru.{LruCache}
use rust_dns_server.Action.{Action, Answer}
use rust_dns_server.Action.Keeps.{Runs, Runs-perform, Runs-modify, Runs-bind}
use rust_dns_server.Resolver.Environment.{
  SocketAddr, World, Network, Received, datagram, cache_lookup, cache_insert,
}

module _ ⦃t : TextLib⦄ (lru : LruCache CacheKey CacheEntry) {Env : Type 0}
    (net : Network (World lru Env)) where
  -- Every operation of the network, every lookup of the resolver, and every insertion of records that
  -- fit their type, keeps `P`; a message that is received makes the parser panic only if `may_panic`,
  -- and so for a clock before the epoch; a record fits its own type, and a lookup finds records that fit the type.
  pub record Hosts (P : World lru Env → Type 0) (may_panic : Type 0)
      (Fits : RecordType → DnsRecord → Type 0) : Type 0 where
    pub own_type : (r : DnsRecord) → Fits r.record_type r
    pub random_u16 : (w : World lru Env) → P w → P (net.random_u16 w).1
    pub random_usize : (w : World lru Env) → P w → P (net.random_usize w).1
    pub instant : (w : World lru Env) → P w → P (net.instant w).1
    pub seconds : (w : World lru Env) → P w → P (net.seconds w).1
    pub clock_reads : (w : World lru Env) → P w → (net.seconds w).0 ≡ none → may_panic
    pub bind_udp : (w : World lru Env) → P w → P (net.bind_udp w).1
    pub send_udp :
        (bytes : Bytes) (addr : SocketAddr) (w : World lru Env)
        → P w
        → P (net.send_udp bytes addr w).1
    pub recv_udp : (w : World lru Env) → P w → P (net.recv_udp w).1
    pub connect_tcp : (addr : SocketAddr) (w : World lru Env) → P w → P (net.connect_tcp addr w).1
    pub write_tcp : (bytes : Bytes) (w : World lru Env) → P w → P (net.write_tcp bytes w).1
    pub read_tcp : (n : ℕ) (w : World lru Env) → P w → P (net.read_tcp n w).1
    pub udp_reads :
        (w : World lru Env)
        → P w
        → (bytes : Bytes) → (net.recv_udp w).0 ≡ datagram bytes
        → Message.parse (take 4096 bytes) ≡ Reader.panic
        → may_panic
    pub tcp_reads :
        (n : ℕ) (w : World lru Env)
        → P w
        → (bytes : Bytes) → (net.read_tcp n w).0 ≡ some bytes
        → Message.parse bytes ≡ Reader.panic
        → may_panic
    pub lookup :
        (now later : ℕ) (k : CacheKey) (w : World lru Env)
        → P w
        → P (record w { cache = (Cache.lookup lru now later k w.cache).1 })
    pub found :
        (now later : ℕ) (k : CacheKey) (w : World lru Env)
        → P w
        → (rs : List DnsRecord) → (Cache.lookup lru now later k w.cache).0 ≡ some rs
        → All (Fits k.record_type) rs
    pub insert :
        (now : ℕ) (k : CacheKey) (rs : List DnsRecord) (w : World lru Env)
        → All (Fits k.record_type) rs
        → P w
        → P (record w { cache = Cache.insert lru now k rs w.cache })

  module _ {P : World lru Env → Type 0} {may_panic : Type 0}
      {Fits : RecordType → DnsRecord → Type 0} (hosts : Hosts P may_panic Fits) where
    -- The action keeps `P`, panics only if `may_panic`, and its value has `Q`.
    abbrev pub Gives : {A : Type 0} → (A → Type 0) → Action (World lru Env) A → Type 0
    Gives Q = Runs P may_panic Q

    abbrev pub IsSafe : {A : Type 0} → Action (World lru Env) A → Type 0
    IsSafe = Gives (λ _. Unit {0})

    -- Records that fit the type, if there are any.
    abbrev pub AreFound : RecordType → Option (List DnsRecord) → Type 0
    AreFound record_type o = (rs : List DnsRecord) → o ≡ some rs → All (Fits record_type) rs

    -- Records of a resolution: each fits the type, or is an alias.
    abbrev pub AreAnswers : RecordType → List DnsRecord → Type 0
    AreAnswers record_type = All (λ (r : DnsRecord). Fits record_type r ⊎ Fits RecordType.cname r)

    pub cache_lookup-Gives :
        (name : DnsName) (record_type : RecordType)
        → Gives (AreFound record_type) (cache_lookup lru net name record_type)
    unfolding cache_lookup
    cache_lookup-Gives name record_type =
        Runs-bind {Q = λ _. Unit {0}} _ _ (Runs-perform net.instant hosts.instant (λ w h. tt))
          λ now _.
            Runs-bind {Q = λ _. Unit {0}} _ _ (Runs-perform net.instant hosts.instant (λ w h. tt))
              λ later _.
                Runs-perform _
                  (hosts.lookup now later (record { name = name; record_type = record_type }))
                  (hosts.found now later (record { name = name; record_type = record_type }))

    pub cache_insert-IsSafe :
        (name : DnsName) (record_type : RecordType) (rs : List DnsRecord)
        → All (Fits record_type) rs
        → IsSafe (cache_insert lru net name record_type rs)
    unfolding cache_insert
    cache_insert-IsSafe name record_type rs fits =
        Runs-bind {Q = λ _. Unit {0}} _ _ (Runs-perform net.instant hosts.instant (λ w h. tt))
          λ now _. Runs-modify _ (λ w h.
            hosts.insert now (record { name = name; record_type = record_type }) rs w fits h)
