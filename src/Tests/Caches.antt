-- ===== src/Tests/Caches.antt =====
-- The cache: runs on a list in place of the crate's cache, and the theorems at concrete inputs.
use rust_dns_server.Base.{◌≡◌, none, some, [], ◌∷◌, map, arith}
use rust_dns_server.Codes.RecordType
use rust_dns_server.Cache.{CacheEntry, CacheKey, from_secs, with_ttl, min_ttl, new, lookup, insert}
use rust_dns_server.Cache.Lru.{LruCache}
use rust_dns_server.Cache.ListLru.{Bounded, list_lru, find}
use rust_dns_server.Cache.Valid.{key_discrete, IsValid, new-IsValid, insert-IsValid}
use rust_dns_server.Cache.Lookup.{left, lookup-insert, lookup_expired}
use rust_dns_server.Tests.Data.{www_ab, mail, address}

abbrev lru : LruCache CacheKey CacheEntry
lru = list_lru key_discrete

abbrev key : CacheKey
key = record { name = www_ab; record_type = RecordType.mx }

-- A cache of two entries, with one: the record `mail` of 300 seconds and `address` of 60.
abbrev stored : Bounded CacheKey CacheEntry
stored = insert lru 5 key (mail ∷ address ∷ []) (new lru 2)

stored-IsValid : IsValid lru stored
stored-IsValid = insert-IsValid lru 5 key (mail ∷ address ∷ []) (new lru 2) (new-IsValid lru 2)

-- Ten seconds later.
lookup-insert_example :
    (lookup lru 10_000_000_005 10_000_000_006 key stored).0
    ≡ some (map (with_ttl (left 60 10_000_000_001)) (mail ∷ address ∷ []))
unfolding new min_ttl
lookup-insert_example =
    lookup-insert lru 5 10_000_000_005 10_000_000_006 key mail (address ∷ []) (new lru 2)
      (λ e. ground arith) (omega arith) (omega arith)

abbrev entry : CacheEntry
entry = record { records = mail ∷ address ∷ []; inserted_at = 5; ttl = from_secs 60 }

abbrev holding : Bounded CacheKey CacheEntry
holding = record { bound = 2; items = (key, entry) ∷ [] }

held : find key_discrete key holding.items ≡ some entry
unfolding find
held = ground arith

lookup_expired_example :
    ((lookup lru 60_000_000_005 60_000_000_006 key holding).0 ≡ none)
    × (find key_discrete key (lookup lru 60_000_000_005 60_000_000_006 key holding).1.items ≡ none)
lookup_expired_example =
    lookup_expired lru 60_000_000_005 60_000_000_006 key entry holding held (omega arith)
