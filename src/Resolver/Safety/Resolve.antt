-- ===== src/Resolver/Safety/Resolve.antt =====
-- `Resolver::resolve`: the cache stays valid, and the only panics are those of the message parser and
-- of a clock before the epoch.
use rust_dns_server.Base.{ℕ, ◌≡◌, ◌≢◌, Bool, none, some, List, [], ◌∷◌, take, Bytes, All}
use rust_dns_server.Text.{TextLib}
use rust_dns_server.Reader
use rust_dns_server.Name.{DnsName}
use rust_dns_server.Codes.RecordType.{RecordType}
use rust_dns_server.Record.{DnsRecord}
use rust_dns_server.Message
use rust_dns_server.Cache.{CacheEntry, CacheKey}
use rust_dns_server.Cache.Lru.{LruCache}
use rust_dns_server.Cache.Valid.{IsValid, insert-IsValid, lookup-IsValid}
use rust_dns_server.Dnssec.Ring.{Crypto}
use rust_dns_server.Zone.{Zone}
use rust_dns_server.Action.{Answer, done, failed, panicked, unfinished}
use rust_dns_server.Action.Keeps.{Ensures}
use rust_dns_server.Resolver.{resolve}
use rust_dns_server.Resolver.Environment.{SocketAddr, World, Network, datagram}
use rust_dns_server.Resolver.Safety.{Hosts}
use rust_dns_server.Resolver.Safety.Sources.{resolve-IsSafe}

-- Where types do not matter, every record fits.
abbrev pub Any : RecordType → DnsRecord → Type 0
Any record_type r = Unit {0}

All-Any : (record_type : RecordType) (rs : List DnsRecord) → All (Any record_type) rs
All-Any record_type [] = tt
All-Any record_type (r ∷ rs) = (tt, All-Any record_type rs)

module _ ⦃t : TextLib⦄ (lru : LruCache CacheKey CacheEntry) (crypto : Crypto) (enable_dnssec : Bool)
    {Env : Type 0} (net : Network (World lru Env)) where
  -- Every operation of the network keeps `P` of the world: so do the tasks that run meanwhile.
  pub record Undisturbed (P : World lru Env → Type 0) : Type 0 where
    pub random_u16 : (w : World lru Env) → P w → P (net.random_u16 w).1
    pub random_usize : (w : World lru Env) → P w → P (net.random_usize w).1
    pub instant : (w : World lru Env) → P w → P (net.instant w).1
    pub seconds : (w : World lru Env) → P w → P (net.seconds w).1
    pub bind_udp : (w : World lru Env) → P w → P (net.bind_udp w).1
    pub send_udp :
        (bytes : Bytes) (addr : SocketAddr) (w : World lru Env)
        → P w
        → P (net.send_udp bytes addr w).1
    pub recv_udp : (w : World lru Env) → P w → P (net.recv_udp w).1
    pub connect_tcp : (addr : SocketAddr) (w : World lru Env) → P w → P (net.connect_tcp addr w).1
    pub write_tcp : (bytes : Bytes) (w : World lru Env) → P w → P (net.write_tcp bytes w).1
    pub read_tcp : (n : ℕ) (w : World lru Env) → P w → P (net.read_tcp n w).1

  -- The cache of the world satisfies its invariant.
  abbrev pub HasValidCache : World lru Env → Type 0
  HasValidCache w = IsValid lru w.cache

  valid_hosts : Undisturbed HasValidCache → Hosts lru net HasValidCache (Unit {0}) Any
  valid_hosts u = record {
    random_u16 = u.random_u16;
    random_usize = u.random_usize;
    instant = u.instant;
    seconds = u.seconds;
    clock_reads = λ w h e. tt;
    bind_udp = u.bind_udp;
    send_udp = u.send_udp;
    recv_udp = u.recv_udp;
    connect_tcp = u.connect_tcp;
    write_tcp = u.write_tcp;
    read_tcp = u.read_tcp;
    udp_reads = λ w h bytes e p. tt;
    tcp_reads = λ n w h bytes e p. tt;
    lookup = λ now later k w h. lookup-IsValid lru now later k w.cache h;
    own_type = λ r. tt;
    found = λ now later k w h rs e. All-Any k.record_type rs;
    insert = λ now k rs w fits h. insert-IsValid lru now k rs w.cache h;
  }

  -- However a resolution ends, and whatever the servers answer, the cache stays valid, if it does so
  -- under the other tasks that run meanwhile.
  pub resolve-IsValid :
      (rounds : ℕ) (zones : List Zone) (name : DnsName) (record_type : RecordType)
      (w : World lru Env)
      → Undisturbed HasValidCache
      → IsValid lru w.cache
      → IsValid lru (resolve lru crypto enable_dnssec net rounds zones name record_type w).1.cache
  resolve-IsValid rounds zones name record_type w u valid =
      (resolve-IsSafe lru crypto enable_dnssec net (valid_hosts u) rounds zones name record_type
          λ z m n ty rs e. All-Any ty rs).world
        w valid

  -- What the network delivers makes the message parser panic nowhere, and the clock is not before the
  -- epoch.
  pub record Harmless : Type 0 where
    pub clock : (w : World lru Env) → (net.seconds w).0 ≢ none
    pub udp :
        (w : World lru Env) (bytes : Bytes)
        → (net.recv_udp w).0 ≡ datagram bytes
        → Message.parse (take 4096 bytes) ≢ Reader.panic
    pub tcp :
        (n : ℕ) (w : World lru Env) (bytes : Bytes)
        → (net.read_tcp n w).0 ≡ some bytes
        → Message.parse bytes ≢ Reader.panic

  harmless_hosts : Harmless → Hosts lru net (λ w. Unit {0}) ⊥ Any
  harmless_hosts h = record {
    random_u16 = λ w _. tt;
    random_usize = λ w _. tt;
    instant = λ w _. tt;
    seconds = λ w _. tt;
    clock_reads = λ w _ e. h.clock w e;
    bind_udp = λ w _. tt;
    send_udp = λ bytes addr w _. tt;
    recv_udp = λ w _. tt;
    connect_tcp = λ addr w _. tt;
    write_tcp = λ bytes w _. tt;
    read_tcp = λ n w _. tt;
    udp_reads = λ w _ bytes e p. h.udp w bytes e p;
    tcp_reads = λ n w _ bytes e p. h.tcp n w bytes e p;
    lookup = λ now later k w _. tt;
    own_type = λ r. tt;
    found = λ now later k w h rs e. All-Any k.record_type rs;
    insert = λ now k rs w fits h. tt;
  }

  Ensures-ne_panicked : {A : Type 0} (Q : A → Type 0) (r : Answer A) → Ensures ⊥ Q r → r ≢ panicked
  Ensures-ne_panicked Q (done a) q e = cc
  Ensures-ne_panicked Q (failed code) q e = cc
  Ensures-ne_panicked Q panicked q e = q
  Ensures-ne_panicked Q unfinished q e = cc

  -- If the clock never stands before the epoch and nothing that the network delivers makes the message
  -- parser panic, then no resolution panics: no index into the servers is out of range, and no
  -- remainder is by zero, for any answers of the servers.
  pub resolve-ne-panicked :
      (rounds : ℕ) (zones : List Zone) (name : DnsName) (record_type : RecordType)
      (w : World lru Env)
      → Harmless
      → (resolve lru crypto enable_dnssec net rounds zones name record_type w).0 ≢ panicked
  resolve-ne-panicked rounds zones name record_type w h = Ensures-ne_panicked _ _ (
      (resolve-IsSafe lru crypto enable_dnssec net (harmless_hosts h) rounds zones name record_type
          λ z m n ty rs e. All-Any ty rs).value
        w tt)
