-- ===== src/Cache/Typed.antt =====
-- The records of an entry have the type of its key, if what is inserted has.
use mathlib.Core.Path.{subst}
use rust_dns_server.Base.{
  some_eq, ℕ, ◌≡◌, refl, sym, ◌∙◌, inl, inr, Option, none, some, List, [], ◌∷◌, map, ◌==◌, All,
  Bool-cases,
}
use rust_dns_server.Codes.RecordType.{RecordType}
use rust_dns_server.Record.{DnsRecord}
use rust_dns_server.Cache.Lru.{LruCache}
use rust_dns_server.Cache.{
  CacheEntry, CacheKey, is_expired, remaining_ttl, min_ttl, with_ttl, new, serve, lookup, insert,
}
use rust_dns_server.Cache.Valid.{key_discrete, IsValid}

abbrev pub HasType : RecordType → DnsRecord → Type 0
HasType record_type r = r.record_type ≡ record_type

map-HasType :
    (n : ℕ) (record_type : RecordType) (rs : List DnsRecord)
    → All (HasType record_type) rs
    → All (HasType record_type) (map (with_ttl n) rs)
map-HasType n record_type [] h = tt
map-HasType n record_type (r ∷ rs) h = (h.0, map-HasType n record_type rs h.1)

module _ (lru : LruCache CacheKey CacheEntry) where
  open lru use {
    Cache, peek, get, put, pop, peek-make, get-peek, peek-get, peek-put_self, peek-put_ne,
    peek-pop_self, peek-pop_ne,
  }

  abbrev pub IsTyped : Cache → Type 0
  IsTyped c =
      (k : CacheKey) (e : CacheEntry) → peek k c ≡ some e → All (HasType k.record_type) e.records

  pub new-IsTyped : (n : ℕ) → IsTyped (new lru n)
  unfolding new
  new-IsTyped n k e h = absurd (cc (peek-make _ k))

  put-IsTyped :
      (k : CacheKey) (v : CacheEntry) (c : Cache)
      → All (HasType k.record_type) v.records
      → IsValid lru c
      → IsTyped c
      → IsTyped (put k v c)
  put-IsTyped k v c all valid typed j e h = elim (key_discrete j k) [
    | yes same ↦
        let stored : v ≡ e = some_eq (sym (peek-put_self k v c valid.room) ∙ rw same at h) in
        rw same (subst (λ (x : CacheEntry). All (HasType k.record_type) x.records) stored all)
    | no other ↦ typed j e (peek-put_ne k j v e c other h)
  ]

  pop-IsTyped : (k : CacheKey) (c : Cache) → IsTyped c → IsTyped (pop k c)
  pop-IsTyped k c typed j e h = elim (key_discrete j k) [
    | yes same ↦ absurd (cc (peek-pop_self k c, rw same at h))
    | no other ↦ typed j e (sym (peek-pop_ne k j c other) ∙ h)
  ]

  -- An insertion of records of the key's type keeps the types.
  pub insert-IsTyped :
      (now : ℕ) (k : CacheKey) (rs : List DnsRecord) (c : Cache)
      → All (HasType k.record_type) rs
      → IsValid lru c
      → IsTyped c
      → IsTyped (insert lru now k rs c)
  unfolding insert
  insert-IsTyped now k [] c all valid typed = typed
  insert-IsTyped now k (r ∷ rs) c all valid typed = elim (Bool-cases (min_ttl r rs == 0)) [
    | inl zero_ttl ↦ rw zero_ttl typed
    | inr more ↦ rw more (put-IsTyped k _ c all valid typed)
  ]

  serve-IsTyped :
      (now later : ℕ) (k : CacheKey) (found : Option CacheEntry) (c : Cache)
      → IsTyped c
      → IsTyped (serve lru now later k found c).1
  unfolding serve
  serve-IsTyped now later k none c typed = typed
  serve-IsTyped now later k (some e) c typed = elim (Bool-cases (is_expired e now)) [
    | inl old ↦ rw old (pop-IsTyped k c typed)
    | inr live ↦ rw live typed
  ]

  -- A lookup keeps the types.
  pub lookup-IsTyped :
      (now later : ℕ) (k : CacheKey) (c : Cache) → IsTyped c → IsTyped (lookup lru now later k c).1
  unfolding lookup
  lookup-IsTyped now later k c typed =
      serve-IsTyped now later k (get k c).0 (get k c).1
        λ j e h. typed j e (sym (peek-get k j c) ∙ h)

  serve-HasType :
      (now later : ℕ) (k : CacheKey) (found : Option CacheEntry) (c : Cache) (rs : List DnsRecord)
      → ((e : CacheEntry) → found ≡ some e → All (HasType k.record_type) e.records)
      → (serve lru now later k found c).0 ≡ some rs
      → All (HasType k.record_type) rs
  unfolding serve
  serve-HasType now later k none c rs typed h = absurd (cc)
  serve-HasType now later k (some e) c rs typed h = elim (Bool-cases (is_expired e now)) [
    | inl old ↦ absurd (cc (rw old at h))
    | inr live ↦
        subst (All (HasType k.record_type)) (some_eq (rw live at h))
          (map-HasType (remaining_ttl e later) k.record_type e.records (typed e refl))
  ]

  -- What a lookup finds has the type of the key.
  pub lookup-HasType :
      (now later : ℕ) (k : CacheKey) (c : Cache) (rs : List DnsRecord)
      → IsTyped c
      → (lookup lru now later k c).0 ≡ some rs
      → All (HasType k.record_type) rs
  unfolding lookup
  lookup-HasType now later k c rs typed h =
      serve-HasType now later k (get k c).0 (get k c).1 rs
        (λ e p. typed k e (sym (get-peek k c) ∙ p)) h
