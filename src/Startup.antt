-- ===== src/Startup.antt =====
-- The configuration and the start of src/main.rs: what is read, and the state that the servers get. The
-- file system and the TOML parser are parameters. The tasks that are started are in Service.
pub mod Ready
use rust_dns_server.Base.{ℕ, Bool, false, Option, none, some, List, [], ◌∷◌}
use rust_dns_server.Text.{Text, TextLib, ascii}
use rust_dns_server.Error.{Result, ok, err}
use rust_dns_server.Cache
use rust_dns_server.Cache.{CacheEntry, CacheKey}
use rust_dns_server.Cache.Lru.{LruCache}
use rust_dns_server.Zone.{Zone, ZoneConfig, AddrLib}
use rust_dns_server.Zone

pub record DohConfig : Type 0 where
  pub listen_addr : Text
  pub tls_cert : Option Text
  pub tls_key : Option Text

pub record Config : Type 0 where
  pub listen_addr : Text
  pub cache_size : ℕ
  pub enable_dnssec : Bool
  pub doh : Option DohConfig
  pub zones_file : Option Text

unfoldable pub default_listen_addr : Text
unfolding ascii
default_listen_addr = ascii "127.0.0.1:53"

unfoldable pub default_doh_addr : Text
unfolding ascii
default_doh_addr = ascii "127.0.0.1:8443"

abbrev pub default_cache_size : ℕ
default_cache_size = 10000

-- `Config::default`
unfoldable pub default_config : Config
unfolding default_listen_addr
default_config = record {
  listen_addr = default_listen_addr;
  cache_size = default_cache_size;
  enable_dnssec = false;
  doh = none;
  zones_file = none;
}

unfoldable pub config_paths : List Text
unfolding ascii
config_paths =
    ascii "config/config.toml" ∷ ascii "config.toml" ∷ ascii "/etc/dns-server/config.toml" ∷ []

-- `std::fs::read_to_string` and the two uses of `toml::from_str`: `none` is an error.
pub record Files : Type 0 where
  pub read_to_string : Text → Option Text
  pub parse_config : Text → Option Config
  pub parse_zones : Text → Option ZoneConfig

-- The state behind the servers: the cache, the zones, and whether to validate.
pub record State (lru : LruCache CacheKey CacheEntry) : Type 0 where
  pub cache : LruCache.Cache lru
  pub zones : List Zone
  pub enable_dnssec : Bool

-- `?` on the result of `load_config`, with the zones that it leaves.
unfoldable pub stored : Result (Unit {0}) × List Zone → Option (List Zone)
stored (ok done, zones) = some zones
stored (err e, zones) = none

module _ (files : Files) where
  -- The loop over the paths: the first file that can be read counts, also if it is malformed.
  unfoldable pub load_first : List Text → Option Config
  load_first [] = some default_config
  load_first (path ∷ paths) =
      let rest = load_first paths in
      elim (files.read_to_string path) [ none ↦ rest | some content ↦ files.parse_config content ]

  unfoldable pub load_config : Option Config
  load_config = load_first config_paths

  module _ ⦃t : TextLib⦄ ⦃addr : AddrLib⦄ where
    -- `zone_store.write().load_config(&zone_config)?`
    unfoldable pub store_zones : ZoneConfig → Option (List Zone)
    store_zones zone_config = stored (Zone.load_config zone_config [])

    -- A file that cannot be read leaves the store empty; one that is malformed stops the program.
    unfoldable pub load_zones : Option Text → Option (List Zone)
    load_zones none = some []
    load_zones (some zones_file) = elim (files.read_to_string zones_file) [
      | none ↦ some []
      | some content ↦ elim (files.parse_zones content) [
        | none ↦ none
        | some zone_config ↦ store_zones zone_config
      ]
    ]

    -- `main` up to `Resolver::new`; `none` is its error.
    unfoldable pub start : (lru : LruCache CacheKey CacheEntry) → Option (State lru)
    start lru = elim load_config [
      | none ↦ none
      | some config ↦ elim (load_zones config.zones_file) [
        | none ↦ none
        | some zones ↦ some (record {
          cache = Cache.new lru config.cache_size;
          zones = zones;
          enable_dnssec = config.enable_dnssec;
        })
      ]
    ]
