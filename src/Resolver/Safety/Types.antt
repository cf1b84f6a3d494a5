-- ===== src/Resolver/Safety/Types.antt =====
-- The types of the records that `Resolver::resolve` returns.
use mathlib.Core.List.{Memᴰ}
use mathlib.Core.Path.{subst}
use rust_dns_server.Base.{ℕ, ◌≡◌, refl, ◌⊎◌, Bool, List, All}
use rust_dns_server.Text.{TextLib}
use rust_dns_server.Error.{ok}
use rust_dns_server.Name.{DnsName}
use rust_dns_server.Codes.RecordType.{RecordType}
use rust_dns_server.Record.{DnsRecord}
use rust_dns_server.Cache.{CacheEntry, CacheKey}
use rust_dns_server.Cache.Lru.{LruCache}
use rust_dns_server.Cache.Valid.{IsValid, insert-IsValid, lookup-IsValid}
use rust_dns_server.Cache.Typed.{HasType, IsTyped, insert-IsTyped, lookup-IsTyped, lookup-HasType}
use rust_dns_server.Dnssec.Ring.{Crypto}
use rust_dns_server.Zone.{Zone, ZoneDefinition, AddrLib, from_config}
use rust_dns_server.Zone.Types.{zone_lookup-HasType}
use rust_dns_server.Action.{done}
use rust_dns_server.Action.Keeps.{Ensures, Runs}
use rust_dns_server.Resolver.{resolve}
use rust_dns_server.Resolver.Environment.{World, Network}
use rust_dns_server.Resolver.Safety.{Hosts}
use rust_dns_server.Resolver.Safety.Sources.{resolve-IsSafe}
use rust_dns_server.Resolver.Safety.Resolve.{Undisturbed}

module _ ⦃t : TextLib⦄ ⦃addr : AddrLib⦄ (lru : LruCache CacheKey CacheEntry) (crypto : Crypto)
    (enable_dnssec : Bool) {Env : Type 0} (net : Network (World lru Env)) where
  -- The cache satisfies its invariant, and its records have the types of their keys.
  abbrev pub HasTypedCache : World lru Env → Type 0
  HasTypedCache w = IsValid lru w.cache × IsTyped lru w.cache

  pub typed_hosts :
      Undisturbed lru crypto enable_dnssec net HasTypedCache
      → Hosts lru net HasTypedCache (Unit {0}) HasType
  typed_hosts u = record {
    own_type = λ r. refl;
    random_u16 = u.random_u16;
    random_usize = u.random_usize;
    instant = u.instant;
    seconds = u.seconds;
    clock_reads = λ w h e. tt;
    bind_udp = u.bind_udp;
    send_udp = u.send_udp;
    recv_udp = u.recv_udp;
    connect_tcp = u.connect_tcp;
    write_tcp = u.write_tcp;
    read_tcp = u.read_tcp;
    udp_reads = λ w h bytes e p. tt;
    tcp_reads = λ n w h bytes e p. tt;
    lookup = λ now later k w h.
        (lookup-IsValid lru now later k w.cache h.0, lookup-IsTyped lru now later k w.cache h.1);
    found = λ now later k w h rs e. lookup-HasType lru now later k w.cache rs h.1 e;
    insert = λ now k rs w fits h.
        (insert-IsValid lru now k rs w.cache h.0, insert-IsTyped lru now k rs w.cache fits h.0 h.1);
  }

  resolve-Runs :
      (rounds : ℕ) (zones : List Zone) (name : DnsName) (record_type : RecordType)
      → Undisturbed lru crypto enable_dnssec net HasTypedCache
      → ((z : Zone) → Memᴰ z zones → (def : ZoneDefinition) × (from_config def ≡ ok z))
      → Runs HasTypedCache
          (Unit {0})
          (All (λ (r : DnsRecord). HasType record_type r ⊎ HasType RecordType.cname r))
          (resolve lru crypto enable_dnssec net rounds zones name record_type)
  resolve-Runs rounds zones name record_type u configured =
      resolve-IsSafe lru crypto enable_dnssec net (typed_hosts u) rounds zones name record_type
        λ z m n ty found h.
          let (def, loaded) = configured z m in zone_lookup-HasType def z n ty found loaded h

  -- Every record that a resolution returns has the type that was asked for or is an alias, whatever
  -- the servers answer, if the zones come from configurations and the cache, also under the other tasks
  -- that run meanwhile, is valid and holds records of their keys' types only.
  pub resolve-HasType :
      (rounds : ℕ) (zones : List Zone) (name : DnsName) (record_type : RecordType)
      (w : World lru Env) (rs : List DnsRecord)
      → Undisturbed lru crypto enable_dnssec net HasTypedCache
      → ((z : Zone) → Memᴰ z zones → (def : ZoneDefinition) × (from_config def ≡ ok z))
      → HasTypedCache w
      → (resolve lru crypto enable_dnssec net rounds zones name record_type w).0 ≡ done rs
      → All
          (λ (r : DnsRecord). (r.record_type ≡ record_type) ⊎ (r.record_type ≡ RecordType.cname))
          rs
  resolve-HasType rounds zones name record_type w rs u configured typed e =
      subst
        (Ensures (Unit {0})
          (All (λ (r : DnsRecord). HasType record_type r ⊎ HasType RecordType.cname r)))
        e ((resolve-Runs rounds zones name record_type u configured).value w typed)

  -- However a resolution ends, the cache is valid and holds records of their keys' types only, under
  -- the same conditions.
  pub resolve-HasTypedCache :
      (rounds : ℕ) (zones : List Zone) (name : DnsName) (record_type : RecordType)
      (w : World lru Env)
      → Undisturbed lru crypto enable_dnssec net HasTypedCache
      → ((z : Zone) → Memᴰ z zones → (def : ZoneDefinition) × (from_config def ≡ ok z))
      → HasTypedCache w
      → HasTypedCache (resolve lru crypto enable_dnssec net rounds zones name record_type w).1
  resolve-HasTypedCache rounds zones name record_type w u configured typed =
      (resolve-Runs rounds zones name record_type u configured).world w typed
