-- ===== src/Cache/Lookup.antt =====
-- What a lookup answers: after an insertion, after the time to live, and for a missing key.
use mathlib.Core.Path.{subst}
use rust_dns_server.Base.{
  ℕ, ◌-◌, ◌/◌, ◌≤◌, ◌<◌, ◌≡◌, ◌≢◌, refl, sym, ◌∙◌, ap, inl, inr, Option, none, some, List, [], ◌∷◌,
  map, arith, All, Bool-cases, lt→==_false, lt→leb_false, le→leb,
}
use rust_dns_server.Record.{DnsRecord}
use rust_dns_server.Cache.Lru.{LruCache}
use rust_dns_server.Cache.{
  CacheEntry, CacheKey, second, from_secs, is_expired, remaining_ttl, with_ttl, smaller, min_ttl,
  max_ttl, serve, lookup, insert,
}
use rust_dns_server.Cache.Valid.{IsFresh, IsValid}

-- The seconds that are left of `ttl` seconds after `age` nanoseconds.
abbrev pub left : ℕ → ℕ → ℕ
left ttl age = (from_secs ttl - age) / second

remaining_ttl-left :
    (rs : List DnsRecord) (at later ttl : ℕ)
    → ttl ≤ max_ttl
    → remaining_ttl (record { records = rs; inserted_at = at; ttl = from_secs ttl }) later
      ≡ left ttl (later - at)
unfolding remaining_ttl
remaining_ttl-left rs at later ttl h = ground arith

remaining_ttl-le :
    (e : CacheEntry) (later : ℕ) → e.ttl ≤ from_secs max_ttl → remaining_ttl e later ≤ max_ttl
unfolding remaining_ttl
remaining_ttl-le e later h = ground arith

with_ttl-le :
    (n m : ℕ) (rs : List DnsRecord)
    → n ≤ m
    → All (λ (r : DnsRecord). r.ttl ≤ m) (map (with_ttl n) rs)
with_ttl-le n m [] h = tt
with_ttl-le n m (r ∷ rs) h = (h, with_ttl-le n m rs h)

some_records : (rs rs' : List DnsRecord) → some rs ≡ some rs' → rs ≡ rs'
some_records rs rs' h = cc

module _ (lru : LruCache CacheKey CacheEntry) where
  open lru use {Cache, peek, get, put, pop, get-peek, peek-put_self, peek-pop_self, cap}

  -- An entry is served while it is younger than its time to live. After an insertion of records with
  -- a TTL above zero, a lookup before the smallest TTL (a day at most) has passed finds them all, each
  -- with the whole seconds that are left, counted at the second reading of the clock.
  pub lookup-insert :
      (now t0 t1 : ℕ) (k : CacheKey) (r : DnsRecord) (rs : List DnsRecord) (c : Cache)
      → cap c ≢ 0
      → 0 < min_ttl r rs
      → t0 - now < from_secs (smaller (min_ttl r rs) max_ttl)
      → (lookup lru t0 t1 k (insert lru now k (r ∷ rs) c)).0
        ≡ some (map (with_ttl (left (smaller (min_ttl r rs) max_ttl) (t1 - now))) (r ∷ rs))
  unfolding lookup insert serve is_expired
  lookup-insert now t0 t1 k r rs c room pos young =
      rw
        (
          lt→==_false (min_ttl r rs) 0 pos,
          get-peek,
          peek-put_self k _ c room,
          serve,
          lt→leb_false (from_secs (smaller (min_ttl r rs) max_ttl)) (t0 - now) young,
        )
        (ap (λ (n : ℕ). some (map (with_ttl n) (r ∷ rs)))
          (remaining_ttl-left (r ∷ rs) now t1 (smaller (min_ttl r rs) max_ttl) (ground arith)))

  -- A lookup of an entry whose time to live has passed finds nothing, and removes the entry.
  pub lookup_expired :
      (t0 t1 : ℕ) (k : CacheKey) (e : CacheEntry) (c : Cache)
      → peek k c ≡ some e
      → e.ttl ≤ t0 - e.inserted_at
      → ((lookup lru t0 t1 k c).0 ≡ none) × (peek k (lookup lru t0 t1 k c).1 ≡ none)
  unfolding lookup serve is_expired
  lookup_expired t0 t1 k e c stored old =
      rw (get-peek, stored, serve, le→leb e.ttl (t0 - e.inserted_at) old) (refl, peek-pop_self k _)

  serve-le_day :
      (t0 t1 : ℕ) (k : CacheKey) (found : Option CacheEntry) (c : Cache) (rs : List DnsRecord)
      → ((e : CacheEntry) → found ≡ some e → IsFresh e)
      → (serve lru t0 t1 k found c).0 ≡ some rs
      → All (λ (r : DnsRecord). r.ttl ≤ max_ttl) rs
  unfolding serve
  serve-le_day t0 t1 k none c rs fresh h = absurd (cc)
  serve-le_day t0 t1 k (some e) c rs fresh h = elim (Bool-cases (is_expired e t0)) [
    | inl old ↦ absurd (cc (rw old at h))
    | inr live ↦
        subst (All (λ (r : DnsRecord). r.ttl ≤ max_ttl)) (some_records _ rs (rw live at h)) (
          with_ttl-le (remaining_ttl e t1) max_ttl e.records
            (remaining_ttl-le e t1 (fresh e refl).within_day))
  ]

  -- No lookup in a valid cache serves a record with a TTL above a day.
  pub lookup-le_day :
      (t0 t1 : ℕ) (k : CacheKey) (c : Cache) (rs : List DnsRecord)
      → IsValid lru c
      → (lookup lru t0 t1 k c).0 ≡ some rs
      → All (λ (r : DnsRecord). r.ttl ≤ max_ttl) rs
  unfolding lookup
  lookup-le_day t0 t1 k c rs valid h =
      serve-le_day t0 t1 k (get k c).0 (get k c).1 rs
        (λ e stored. valid.fresh k e (sym (get-peek k c) ∙ stored)) h
