-- ===== src/Resolver/Uncached.antt =====
-- `Resolver::resolve` of src/resolver/mod.rs for a question that neither the zones nor the cache answer.
use rust_dns_server.Base.{ℕ, ◌≡◌, refl, ◌∙◌, inl, inr, Bool, none, List, Bool-cases, if◌then◌else◌}
use rust_dns_server.Text.{TextLib}
use rust_dns_server.Name.{DnsName}
use rust_dns_server.Codes.RecordType.{RecordType, type_eq}
use rust_dns_server.Cache.{CacheEntry, CacheKey}
use rust_dns_server.Cache.Lru.{LruCache}
use rust_dns_server.Dnssec.Ring.{Crypto}
use rust_dns_server.Zone.{Zone}
use rust_dns_server.Action.{Action, done, ◌>>=◌}
use rust_dns_server.Resolver.Environment.{World, Network, cache_lookup}
use rust_dns_server.Resolver.Recursive.{resolve_recursive}
use rust_dns_server.Resolver.{not_found, zone_result, follow_cached, from_cache, from_zone, resolve}

-- What follows a step with a known value.
pub first-done :
    {W A B : Type 0} (m : Action W A) (f : A → Action W B) (a : A) (w : W)
    → (m w).0 ≡ done a
    → (m >>= f) w ≡ f a (m w).1
unfolding ◌>>=◌
first-done m f a w h = rw h refl

module _ ⦃t : TextLib⦄ (lru : LruCache CacheKey CacheEntry) (crypto : Crypto) (enable_dnssec : Bool)
    {Env : Type 0} (net : Network (World lru Env)) where
  -- The world behind a lookup in the cache.
  abbrev pub searched : DnsName → RecordType → World lru Env → World lru Env
  searched name record_type w = (cache_lookup lru net name record_type w).1

  -- Neither the records nor an alias are in the cache.
  pub record IsUncached (name : DnsName) (record_type : RecordType) (w : World lru Env)
      : Type 0 where
    pub no_records : (cache_lookup lru net name record_type w).0 ≡ done none
    pub no_alias :
        (cache_lookup lru net name RecordType.cname (searched name record_type w)).0 ≡ done none

  -- The world in which the recursive resolution starts.
  abbrev pub missed : DnsName → RecordType → World lru Env → World lru Env
  missed name record_type w =
      if type_eq record_type RecordType.cname
      then searched name record_type w
      else searched name RecordType.cname (searched name record_type w)

  from_cache-none :
      (rounds : ℕ) (name : DnsName) (record_type : RecordType) (w : World lru Env)
      → (cache_lookup lru net name RecordType.cname w).0 ≡ done none
      → from_cache lru crypto enable_dnssec net rounds name record_type none w
        ≡ resolve_recursive lru crypto enable_dnssec net rounds 33 name record_type
            (if type_eq record_type RecordType.cname then w else searched name RecordType.cname w)
  unfolding from_cache follow_cached
  from_cache-none rounds name record_type w no_alias =
      elim (Bool-cases (type_eq record_type RecordType.cname)) [
        | inl alias ↦ rw alias refl
        | inr other ↦ rw other (
            first-done (cache_lookup lru net name RecordType.cname)
              (follow_cached lru crypto enable_dnssec net rounds name record_type) none w no_alias)
      ]

  pub resolve-uncached :
      (rounds : ℕ) (zones : List Zone) (name : DnsName) (record_type : RecordType)
      (w : World lru Env)
      → zone_result zones name record_type ≡ not_found
      → IsUncached name record_type w
      → resolve lru crypto enable_dnssec net rounds zones name record_type w
        ≡ resolve_recursive lru crypto enable_dnssec net rounds 33 name record_type
            (missed name record_type w)
  unfolding resolve from_zone
  resolve-uncached rounds zones name record_type w elsewhere uncached =
      rw (resolve, elsewhere)
        (first-done (cache_lookup lru net name record_type)
            (from_cache lru crypto enable_dnssec net rounds name record_type) none w
            uncached.no_records
          ∙ from_cache-none rounds name record_type (searched name record_type w) uncached.no_alias)
