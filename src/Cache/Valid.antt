-- ===== src/Cache/Valid.antt =====
-- The invariant of the cache: no entry outlives one of its records, or a day.
use native.Mathlib.Decide.{ℕ_discrete}
use rust_dns_server.Base.{
  some_eq, ℕ, ◌≤◌, ◌≡◌, ◌≢◌, sym, ◌∙◌, inl, inr, Option, none, some, List, [], ◌∷◌, arith, ◌==◌,
  All, Bool-cases, if◌then◌else◌,
}
use mathlib.Core.Path.{subst}
use rust_dns_server.Record.{DnsRecord}
use rust_dns_server.Cache.Lru.{LruCache}
use rust_dns_server.Cache.{
  CacheEntry, CacheKey, from_secs, is_expired, smaller, min_ttl, max_ttl, new, serve, lookup,
  insert, clear_cache,
}

pub key_discrete : Discrete CacheKey
key_discrete = hlevel ℕ_discrete

abbrev pub Lives : ℕ → DnsRecord → Type 0
Lives ttl r = ttl ≤ from_secs r.ttl

pub record IsFresh (e : CacheEntry) : Type 0 where
  pub within_records : All (Lives e.ttl) e.records
  pub within_day : e.ttl ≤ from_secs max_ttl
  pub some_record : e.records ≢ []

min_ttl-le :
    (m : ℕ) (r : DnsRecord) (rs : List DnsRecord)
    → m ≤ min_ttl r rs
    → All (λ (x : DnsRecord). m ≤ x.ttl) (r ∷ rs)
unfolding min_ttl
min_ttl-le m r [] h = (h, tt)
min_ttl-le m r (r' ∷ rs) h = (ground arith, min_ttl-le m r' rs (ground arith))

Lives-of_le :
    (m : ℕ) (rs : List DnsRecord)
    → All (λ (x : DnsRecord). m ≤ x.ttl) rs
    → All (Lives (from_secs m)) rs
Lives-of_le m [] h = tt
Lives-of_le m (r ∷ rs) h = (omega arith, Lives-of_le m rs h.1)

insert-IsFresh :
    (now : ℕ) (r : DnsRecord) (rs : List DnsRecord)
    → IsFresh (record {
      records = r ∷ rs;
      inserted_at = now;
      ttl = from_secs (smaller (min_ttl r rs) max_ttl);
    })
insert-IsFresh now r rs =
    let kept = smaller (min_ttl r rs) max_ttl in
    record {
      within_records = Lives-of_le kept (r ∷ rs) (min_ttl-le kept r rs (ground arith));
      within_day = ground arith;
      some_record = λ e. cc;
    }

module _ (lru : LruCache CacheKey CacheEntry) where
  open lru use {
    Cache, make, peek, get, put, pop, clear, peek-make, get-peek, peek-get, peek-put_self,
    peek-put_ne, peek-pop_self, peek-pop_ne, peek-clear, cap, cap-make, cap-put, cap-pop, cap-get,
    cap-clear,
  }

  pub record IsValid (c : Cache) : Type 0 where
    pub room : cap c ≢ 0
    pub fresh : (k : CacheKey) (e : CacheEntry) → peek k c ≡ some e → IsFresh e

  -- `new` makes a cache that satisfies the invariant, also where it is asked for no entries.
  pub new-IsValid : (max_entries : ℕ) → IsValid (new lru max_entries)
  unfolding new
  new-IsValid n = record {
    room = λ e. nonzero (sym (cap-make _) ∙ e);
    fresh = λ k e h. absurd (cc (peek-make (if n == 0 then 10000 else n) k));
  }
    where
      nonzero : (if n == 0 then 10000 else n) ≡ 0 → ⊥
      nonzero e = ground arith

  put-IsValid :
      (k : CacheKey) (v : CacheEntry) (c : Cache) → IsFresh v → IsValid c → IsValid (put k v c)
  put-IsValid k v c f valid = record {
    room = λ e. valid.room (sym (cap-put k v c) ∙ e);
    fresh = λ j e h. elim (key_discrete j k) [
      | yes same ↦
          let stored : some v ≡ some e = sym (peek-put_self k v c valid.room) ∙ rw same at h in
          subst IsFresh (some_eq stored) f
      | no other ↦ valid.fresh j e (peek-put_ne k j v e c other h)
    ];
  }

  pop-IsValid : (k : CacheKey) (c : Cache) → IsValid c → IsValid (pop k c)
  pop-IsValid k c valid = record {
    room = λ e. valid.room (sym (cap-pop k c) ∙ e);
    fresh = λ j e h. elim (key_discrete j k) [
      | yes same ↦ absurd (cc (peek-pop_self k c, rw same at h))
      | no other ↦ valid.fresh j e (sym (peek-pop_ne k j c other) ∙ h)
    ];
  }

  get-IsValid : (k : CacheKey) (c : Cache) → IsValid c → IsValid (get k c).1
  get-IsValid k c valid = record {
    room = λ e. valid.room (sym (cap-get k c) ∙ e);
    fresh = λ j e h. valid.fresh j e (sym (peek-get k j c) ∙ h);
  }

  -- `insert` keeps the invariant, whatever it is given.
  pub insert-IsValid :
      (now : ℕ) (k : CacheKey) (rs : List DnsRecord) (c : Cache)
      → IsValid c
      → IsValid (insert lru now k rs c)
  unfolding insert
  insert-IsValid now k [] c valid = valid
  insert-IsValid now k (r ∷ rs) c valid = elim (Bool-cases (min_ttl r rs == 0)) [
    | inl zero_ttl ↦ rw zero_ttl valid
    | inr more ↦ rw more (put-IsValid k _ c (insert-IsFresh now r rs) valid)
  ]

  serve-IsValid :
      (now later : ℕ) (k : CacheKey) (found : Option CacheEntry) (c : Cache)
      → IsValid c
      → IsValid (serve lru now later k found c).1
  unfolding serve
  serve-IsValid now later k none c valid = valid
  serve-IsValid now later k (some e) c valid = elim (Bool-cases (is_expired e now)) [
    | inl old ↦ rw old (pop-IsValid k c valid)
    | inr live ↦ rw live valid
  ]

  -- `lookup` keeps the invariant.
  pub lookup-IsValid :
      (now later : ℕ) (k : CacheKey) (c : Cache) → IsValid c → IsValid (lookup lru now later k c).1
  unfolding lookup
  lookup-IsValid now later k c valid =
      serve-IsValid now later k (get k c).0 (get k c).1 (get-IsValid k c valid)

  -- `clear_cache` keeps the invariant.
  pub clear_cache-IsValid : (c : Cache) → IsValid c → IsValid (clear_cache lru c)
  unfolding clear_cache
  clear_cache-IsValid c valid = record {
    room = λ e. valid.room (sym (cap-clear c) ∙ e);
    fresh = λ j e h. absurd (cc (peek-clear j c));
  }
