-- ===== src/Startup/Ready.antt =====
-- The state that src/main.rs starts the servers with.
use mathlib.Core.List.{Memᴰ}
use mathlib.Core.Path.{subst}
use rust_dns_server.Base.{
  ◌≡◌, refl, sym, ◌⊎◌, inl, inr, Option, none, some, List, [], ◌∷◌, ◌++◌, Option-cases, some_eq,
}
use rust_dns_server.Text.{Text, TextLib}
use rust_dns_server.Error.{DnsError, Result, ok, err}
use rust_dns_server.Cache.{CacheEntry, CacheKey, new}
use rust_dns_server.Cache.Lru.{LruCache}
use rust_dns_server.Cache.Valid.{IsValid, new-IsValid}
use rust_dns_server.Cache.Typed.{IsTyped, new-IsTyped}
use rust_dns_server.Zone
use rust_dns_server.Zone.{Zone, ZoneDefinition, ZoneConfig, AddrLib, from_config}
use rust_dns_server.Startup.{
  Config, Files, State, load_config, stored, store_zones, load_zones, start,
}

last_or_before :
    {A : Type 0} (xs : List A) (x y : A) → Memᴰ y (xs ++ (x ∷ [])) → Memᴰ y xs ⊎ (y ≡ x)
last_or_before [] x y (Memᴰ.head e) = inr e
last_or_before [] x y (Memᴰ.tail m) = elim m [ ]
last_or_before (z ∷ xs) x y (Memᴰ.head e) = inl (Memᴰ.head e)
last_or_before (z ∷ xs) x y (Memᴰ.tail m) = elim (last_or_before xs x y m) [
  | inl before ↦ inl (Memᴰ.tail before)
  | inr last ↦ inr last
]

module _ ⦃t : TextLib⦄ ⦃addr : AddrLib⦄ where
  -- Every zone of the list comes from a configuration.
  abbrev pub AreConfigured : List Zone → Type 0
  AreConfigured zones =
      (z : Zone) → Memᴰ z zones → (def : ZoneDefinition) × (from_config def ≡ ok z)

  nil-AreConfigured : AreConfigured []
  nil-AreConfigured z m = elim m [ ]

  append-AreConfigured :
      (zones : List Zone) (def : ZoneDefinition) (z : Zone)
      → AreConfigured zones
      → from_config def ≡ ok z
      → AreConfigured (zones ++ (z ∷ []))
  append-AreConfigured zones def z all e y m = elim (last_or_before zones z y m) [
    | inl before ↦ all y before
    | inr last ↦ (def, subst (λ (x : Zone). from_config def ≡ ok x) (sym last) e)
  ]

  Result-cases :
      {A : Type 0} (r : Result A) → ((a : A) × (r ≡ ok a)) ⊎ ((e : DnsError) × (r ≡ err e))
  Result-cases (ok a) = inl (a, refl)
  Result-cases (err e) = inr (e, refl)

  load_config-AreConfigured :
      (defs : ZoneConfig) (zones : List Zone)
      → AreConfigured zones
      → AreConfigured (Zone.load_config defs zones).1
  unfolding Zone.load_config
  load_config-AreConfigured [] zones all = all
  load_config-AreConfigured (def ∷ defs) zones all = elim (Result-cases (from_config def)) [
    | inr (e, bad) ↦ rw (Zone.load_config, bad) all
    | inl (z, good) ↦
        rw (Zone.load_config, good)
          (load_config-AreConfigured defs (zones ++ (z ∷ []))
            (append-AreConfigured zones def z all good))
  ]

  stored-AreConfigured :
      (r : Result (Unit {0}) × List Zone) (zones : List Zone)
      → AreConfigured r.1
      → stored r ≡ some zones
      → AreConfigured zones
  unfolding stored
  stored-AreConfigured (ok done, zs) zones all h = subst AreConfigured (some_eq h) all
  stored-AreConfigured (err e, zs) zones all h = absurd (cc)

  module _ (files : Files) where
    parsed-AreConfigured :
        (o : Option ZoneConfig) (zones : List Zone)
        → (elim o [ none ↦ none | some zone_config ↦ store_zones files zone_config ]) ≡ some zones
        → AreConfigured zones
    unfolding store_zones
    parsed-AreConfigured none zones h = absurd (cc)
    parsed-AreConfigured (some defs) zones h =
        stored-AreConfigured (Zone.load_config defs []) zones
          (load_config-AreConfigured defs [] nil-AreConfigured) h

    load_zones-AreConfigured :
        (zones_file : Option Text) (zones : List Zone)
        → load_zones files zones_file ≡ some zones
        → AreConfigured zones
    unfolding load_zones
    load_zones-AreConfigured none zones h = subst AreConfigured (some_eq h) nil-AreConfigured
    load_zones-AreConfigured (some path) zones h = elim (Option-cases (files.read_to_string path)) [
      | inl missing ↦
          subst AreConfigured (some_eq (rw (load_zones, missing) at h)) nil-AreConfigured
      | inr (content, read) ↦
          parsed-AreConfigured (files.parse_zones content) zones (rw (load_zones, read) at h)
    ]

    -- What the servers start with.
    pub record IsReady (lru : LruCache CacheKey CacheEntry) (s : State lru) : Type 0 where
      pub valid : IsValid lru s.cache
      pub typed : IsTyped lru s.cache
      pub configured : AreConfigured s.zones

    started-IsReady :
        (lru : LruCache CacheKey CacheEntry) (config : Config) (o : Option (List Zone))
        (s : State lru)
        → load_zones files config.zones_file ≡ o
        → (elim o [
          | none ↦ none
          | some zones ↦ some (record {
            cache = new lru config.cache_size;
            zones = zones;
            enable_dnssec = config.enable_dnssec;
          })
        ])
          ≡ some s
        → IsReady lru s
    started-IsReady lru config none s e h = absurd (cc)
    started-IsReady lru config (some zones) s e h = subst (IsReady lru) (some_eq h) (record {
      valid = new-IsValid lru config.cache_size;
      typed = new-IsTyped lru config.cache_size;
      configured = load_zones-AreConfigured config.zones_file zones e;
    })

    -- Whatever the files hold, if the program starts then its cache satisfies the invariant, the records
    -- of the cache have the types of their keys, and every zone comes from a configuration.
    pub start-IsReady :
        (lru : LruCache CacheKey CacheEntry) (s : State lru)
        → start files lru ≡ some s
        → IsReady lru s
    unfolding start
    start-IsReady lru s h = elim (Option-cases (load_config files)) [
      | inl missing ↦ absurd (cc (rw (start, missing) at h))
      | inr (config, read) ↦
          started-IsReady lru config (load_zones files config.zones_file) s refl
            (rw (start, read) at h)
    ]
