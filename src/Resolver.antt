-- ===== src/Resolver.antt =====
-- `Resolver` of src/resolver/mod.rs: the world it runs in, and the order of its sources.
pub mod Environment
pub mod Query
pub mod Chain
pub mod Recursive
pub mod Safety
pub mod Endless
pub mod Silence
pub mod Uncached
pub mod Aliases
pub mod Found
pub mod Remember
use rust_dns_server.Base.{
  ℕ, Bool, true, false, not, ◌&&◌, Option, none, some, List, [], ◌∷◌, if◌then◌else◌,
}
use rust_dns_server.Text.{TextLib}
use rust_dns_server.Name.{DnsName}
use rust_dns_server.Codes.RecordType
use rust_dns_server.Codes.RecordType.{RecordType, type_eq}
use rust_dns_server.Record.{DnsRecord}
use rust_dns_server.Cache.{CacheEntry, CacheKey}
use rust_dns_server.Cache.Lru.{LruCache}
use rust_dns_server.Dnssec.Ring.{Crypto}
use rust_dns_server.Zone.{Zone, find_zone, has_name, zone_lookup, store_lookup}
use rust_dns_server.Action.{Action, pure, ◌>>=◌}
use rust_dns_server.Resolver.Environment.{World, Network, cache_lookup}
use rust_dns_server.Resolver.Chain.{follow_cname_chain}
use rust_dns_server.Resolver.Recursive.{resolve_recursive}

-- The local enumeration of `Resolver::resolve`.
pub data ZoneResult : Type 0 where
  found : List DnsRecord → ZoneResult
  follow_cname : List DnsRecord → ZoneResult
  no_data : ZoneResult
  not_found : ZoneResult

unfoldable pub in_zone : Zone → DnsName → RecordType → ZoneResult
in_zone zone name record_type =
    if has_name zone name && not (type_eq record_type RecordType.cname)
    then (elim (zone_lookup zone name RecordType.cname) [
      | some cnames ↦ follow_cname cnames
      | none ↦ no_data
    ])
    else not_found

unfoldable pub zone_result : List Zone → DnsName → RecordType → ZoneResult
zone_result zones name record_type = elim (store_lookup zones name record_type) [
  | some records ↦ found records
  | none ↦ elim (find_zone zones name) [
    | some zone ↦ in_zone zone name record_type
    | none ↦ not_found
  ]
]

module _ ⦃t : TextLib⦄ (lru : LruCache CacheKey CacheEntry) (crypto : Crypto) (enable_dnssec : Bool)
    {Env : Type 0} (net : Network (World lru Env)) where
  abbrev pub ResolverAction : Type 0
  ResolverAction = Action (World lru Env) (List DnsRecord)

  -- `self.resolve_recursive(name, record_type, depth)` for a depth of `33 - depth_left`.
  abbrev pub recursive : (rounds depth_left : ℕ) → DnsName → RecordType → ResolverAction
  recursive = resolve_recursive lru crypto enable_dnssec net

  -- Steps 2 and 3 of `Resolver::resolve`.
  unfoldable pub follow_cached : ℕ → DnsName → RecordType → Option (List DnsRecord) → ResolverAction
  follow_cached rounds name record_type (some cnames) =
      follow_cname_chain (recursive rounds 32) cnames record_type
  follow_cached rounds name record_type none = recursive rounds 33 name record_type

  unfoldable pub from_cache : ℕ → DnsName → RecordType → Option (List DnsRecord) → ResolverAction
  from_cache rounds name record_type (some records) = pure records
  from_cache rounds name record_type none =
      if type_eq record_type RecordType.cname
      then recursive rounds 33 name record_type
      else (cache_lookup lru net name RecordType.cname >>= follow_cached rounds name record_type)

  unfoldable pub from_zone : ℕ → DnsName → RecordType → ZoneResult → ResolverAction
  from_zone rounds name record_type (found records) = pure records
  from_zone rounds name record_type (follow_cname cnames) =
      follow_cname_chain (recursive rounds 32) cnames record_type
  from_zone rounds name record_type no_data = pure []
  from_zone rounds name record_type not_found =
      cache_lookup lru net name record_type >>= from_cache rounds name record_type

  -- `Resolver::resolve`, with at most `rounds` referrals for each name that is resolved.
  unfoldable pub resolve : ℕ → List Zone → DnsName → RecordType → ResolverAction
  resolve rounds zones name record_type =
      from_zone rounds name record_type (zone_result zones name record_type)
