-- ===== src/Server/Local.antt =====
-- A query for a local zone: what the server of src/server/mod.rs replies with the resolver of
-- src/resolver/mod.rs behind it.
use rust_dns_server.Base.{ℕ, ◌≡◌, refl, Bool, some, List}
use rust_dns_server.Text.{TextLib}
use rust_dns_server.Name.{DnsName}
use rust_dns_server.Codes.RecordType.{RecordType}
use rust_dns_server.Codes.ResponseCode
use rust_dns_server.Record.{DnsRecord}
use rust_dns_server.Message
use rust_dns_server.Cache.{CacheEntry, CacheKey}
use rust_dns_server.Cache.Lru.{LruCache}
use rust_dns_server.Dnssec.Ring.{Crypto}
use rust_dns_server.Zone.{Zone, store_lookup}
use rust_dns_server.Action
use rust_dns_server.Resolver.Environment.{World, Network}
use rust_dns_server.Resolver.{zone_result, from_zone, resolve}

module _ ⦃t : TextLib⦄ (lru : LruCache CacheKey CacheEntry) (crypto : Crypto) (enable_dnssec : Bool)
    {Env : Type 0} (net : Network (World lru Env)) where
  -- The zones come first: nothing is read or changed.
  pub resolve_local :
      (rounds : ℕ) (zones : List Zone) (name : DnsName) (record_type : RecordType)
      (rs : List DnsRecord) (w : World lru Env)
      → store_lookup zones name record_type ≡ some rs
      → resolve lru crypto enable_dnssec net rounds zones name record_type w ≡ (Action.done rs, w)
  unfolding resolve zone_result from_zone Action.pure
  resolve_local rounds zones name record_type rs w e = rw (resolve, zone_result, e) refl
