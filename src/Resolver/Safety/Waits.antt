-- ===== src/Resolver/Safety/Waits.antt =====
-- What other tasks find when a resolution of src/resolver/mod.rs waits: its network is observed, with
-- a list of the worlds in which it is called.
use mathlib.Core.List.{Memᴰ}
use rust_dns_server.Base.{ℕ, ◌≡◌, Bool, List, [], ◌∷◌, All}
use rust_dns_server.Text.{TextLib}
use rust_dns_server.Error.{ok}
use rust_dns_server.Name.{DnsName}
use rust_dns_server.Codes.RecordType.{RecordType}
use rust_dns_server.Record.{DnsRecord}
use rust_dns_server.Cache.{CacheEntry, CacheKey}
use rust_dns_server.Cache.Lru.{LruCache}
use rust_dns_server.Dnssec.Ring.{Crypto}
use rust_dns_server.Zone.{Zone, ZoneDefinition, AddrLib, from_config}
use rust_dns_server.Zone.Types.{zone_lookup-HasType}
use rust_dns_server.Resolver.{resolve}
use rust_dns_server.Resolver.Environment.{World, Network}
use rust_dns_server.Resolver.Safety.{Hosts}
use rust_dns_server.Resolver.Safety.Sources.{resolve-IsSafe}
use rust_dns_server.Resolver.Safety.Resolve.{Undisturbed}
use rust_dns_server.Resolver.Safety.Types.{HasTypedCache, typed_hosts}

-- A world with the worlds in which the network was called, the last one first.
abbrev pub Observed : LruCache CacheKey CacheEntry → Type 0 → Type 0
Observed lru Env = World lru (Env × List (World lru Env))

module _ (lru : LruCache CacheKey CacheEntry) {Env : Type 0} where
  abbrev pub actual : Observed lru Env → World lru Env
  actual w = record { cache = w.cache; env = w.env.0 }

  abbrev pub unobserved : World lru Env → Observed lru Env
  unobserved w = record { cache = w.cache; env = (w.env, []) }

  abbrev observe :
      {A : Type 0} → (World lru Env → A × World lru Env) → Observed lru Env → A × Observed lru Env
  observe f w =
      let (a, v) = f (actual w) in
      (a, record { cache = v.cache; env = (v.env, actual w ∷ w.env.1) })

  abbrev pub observed : Network (World lru Env) → Network (Observed lru Env)
  observed net = record {
    random_u16 = observe net.random_u16;
    random_usize = observe net.random_usize;
    instant = observe net.instant;
    seconds = observe net.seconds;
    bind_udp = observe net.bind_udp;
    send_udp = λ bytes addr. observe (net.send_udp bytes addr);
    recv_udp = observe net.recv_udp;
    connect_tcp = λ addr. observe (net.connect_tcp addr);
    write_tcp = λ bytes. observe (net.write_tcp bytes);
    read_tcp = λ n. observe (net.read_tcp n);
  }

  -- `P` holds now, and held at every call.
  abbrev pub Held : (World lru Env → Type 0) → Observed lru Env → Type 0
  Held P w = P (actual w) × All P w.env.1

module _ ⦃t : TextLib⦄ (lru : LruCache CacheKey CacheEntry) {Env : Type 0} where
  observed_hosts :
      (net : Network (World lru Env)) {P : World lru Env → Type 0} {may_panic : Type 0}
      {Fits : RecordType → DnsRecord → Type 0}
      → Hosts lru net P may_panic Fits
      → Hosts lru (observed lru net) (Held lru P) may_panic Fits
  observed_hosts net hosts = record {
    own_type = hosts.own_type;
    random_u16 = λ w h. (hosts.random_u16 (actual lru w) h.0, h);
    random_usize = λ w h. (hosts.random_usize (actual lru w) h.0, h);
    instant = λ w h. (hosts.instant (actual lru w) h.0, h);
    seconds = λ w h. (hosts.seconds (actual lru w) h.0, h);
    clock_reads = λ w h. hosts.clock_reads (actual lru w) h.0;
    bind_udp = λ w h. (hosts.bind_udp (actual lru w) h.0, h);
    send_udp = λ bytes addr w h. (hosts.send_udp bytes addr (actual lru w) h.0, h);
    recv_udp = λ w h. (hosts.recv_udp (actual lru w) h.0, h);
    connect_tcp = λ addr w h. (hosts.connect_tcp addr (actual lru w) h.0, h);
    write_tcp = λ bytes w h. (hosts.write_tcp bytes (actual lru w) h.0, h);
    read_tcp = λ n w h. (hosts.read_tcp n (actual lru w) h.0, h);
    udp_reads = λ w h. hosts.udp_reads (actual lru w) h.0;
    tcp_reads = λ n w h. hosts.tcp_reads n (actual lru w) h.0;
    lookup = λ now later k w h. (hosts.lookup now later k (actual lru w) h.0, h.1);
    found = λ now later k w h. hosts.found now later k (actual lru w) h.0;
    insert = λ now k rs w fits h. (hosts.insert now k rs (actual lru w) fits h.0, h.1);
  }

module _ ⦃t : TextLib⦄ ⦃addr : AddrLib⦄ (lru : LruCache CacheKey CacheEntry) (crypto : Crypto)
    (enable_dnssec : Bool) {Env : Type 0} (net : Network (World lru Env)) where
  -- Whenever a resolution that starts with a valid cache of records of their keys' types calls the
  -- network, the cache that other tasks find then is such a cache, and so is the last one, if the zones
  -- come from configurations and the network, with the tasks that run meanwhile, keeps such a cache.
  pub resolve-Held :
      (rounds : ℕ) (zones : List Zone) (name : DnsName) (record_type : RecordType)
      (w : World lru Env)
      → Undisturbed lru crypto enable_dnssec net (HasTypedCache lru crypto enable_dnssec net)
      → ((z : Zone) → Memᴰ z zones → (def : ZoneDefinition) × (from_config def ≡ ok z))
      → HasTypedCache lru crypto enable_dnssec net w
      → Held lru
          (HasTypedCache lru crypto enable_dnssec net)
          (resolve lru crypto enable_dnssec
            (observed lru net)
            rounds
            zones
            name
            record_type
            (unobserved lru w)).1
  resolve-Held rounds zones name record_type w u configured typed =
      (resolve-IsSafe lru crypto enable_dnssec (observed lru net)
          (observed_hosts lru net (typed_hosts lru crypto enable_dnssec net u)) rounds zones name
          record_type
          λ z m n ty found h.
            let (def, loaded) = configured z m in
            zone_lookup-HasType def z n ty found loaded h).world
        (unobserved lru w) (typed, tt)
