-- ===== src/Cache.antt =====
-- `DnsCache` of src/cache/mod.rs. Times and durations are nanoseconds; each reading of the clock is
-- an argument.
pub mod Lru
pub mod Valid
pub mod Typed
pub mod Lookup
pub mod ListLru
use rust_dns_server.Base.{
  ℕ, ◌+◌, ◌-◌, ◌*◌, ◌/◌, ◌%◌, Bool, Option, none, some, List, [], ◌∷◌, map, leb, ltb, ◌==◌,
  if◌then◌else◌,
}
use rust_dns_server.Name.{DnsName}
use rust_dns_server.Codes.RecordType.{RecordType}
use rust_dns_server.Record.{DnsRecord}
use rust_dns_server.Cache.Lru.{LruCache}

pub record CacheEntry : Type 0 where
  pub records : List DnsRecord
  pub inserted_at : ℕ
  pub ttl : ℕ

pub record CacheKey : Type 0 where
  pub name : DnsName
  pub record_type : RecordType

abbrev pub second : ℕ
second = 1_000_000_000

-- `Duration::from_secs`
abbrev pub from_secs : ℕ → ℕ
from_secs n = n * second

-- `inserted_at.elapsed()`, which is zero where the clock has gone back.
abbrev pub elapsed : CacheEntry → ℕ → ℕ
elapsed e now = now - e.inserted_at

unfoldable pub is_expired : CacheEntry → ℕ → Bool
is_expired e now = leb e.ttl (elapsed e now)

unfoldable pub remaining_ttl : CacheEntry → ℕ → ℕ
remaining_ttl e now =
    if leb e.ttl (elapsed e now) then 0 else (e.ttl - elapsed e now) / second % 4294967296

abbrev pub with_ttl : ℕ → DnsRecord → DnsRecord
with_ttl n r = record r { ttl = n }

abbrev pub smaller : ℕ → ℕ → ℕ
smaller a b = if leb a b then a else b

-- `records.iter().map(|r| r.ttl).min()`, for `r` in front of the others
unfoldable pub min_ttl : DnsRecord → List DnsRecord → ℕ
min_ttl r [] = r.ttl
min_ttl r (r' ∷ rs) = smaller r.ttl (min_ttl r' rs)

abbrev pub max_ttl : ℕ
max_ttl = 86400

module _ (lru : LruCache CacheKey CacheEntry) where
  open lru use {Cache, make, get, put, pop, clear, len}

  -- `DnsCache::new`
  unfoldable pub new : ℕ → Cache
  new max_entries = make (if max_entries == 0 then 10000 else max_entries)

  -- What `lookup` does with the answer of the LRU cache.
  unfoldable pub serve :
      (now later : ℕ) → CacheKey → Option CacheEntry → Cache → Option (List DnsRecord) × Cache
  serve now later key none cache = (none, cache)
  serve now later key (some e) cache =
      if is_expired e now
      then (none, pop key cache)
      else (some (map (with_ttl (remaining_ttl e later)) e.records), cache)

  -- The clock is read for `is_expired` at `now`, and for `remaining_ttl` at `later`.
  unfoldable pub lookup : (now later : ℕ) → CacheKey → Cache → Option (List DnsRecord) × Cache
  lookup now later key cache =
      let (entry, cache') = get key cache in serve now later key entry cache'

  unfoldable pub insert : ℕ → CacheKey → List DnsRecord → Cache → Cache
  insert now key [] cache = cache
  insert now key (r ∷ rs) cache =
      if min_ttl r rs == 0
      then cache
      else put key
          (record {
            records = r ∷ rs;
            inserted_at = now;
            ttl = from_secs (smaller (min_ttl r rs) max_ttl);
          })
          cache

  -- `DnsCache::clear` and `DnsCache::len`
  unfoldable pub clear_cache : Cache → Cache
  clear_cache cache = clear cache

  unfoldable pub size : Cache → ℕ
  size cache = len cache
