-- ===== src/Tests/Starts.antt =====
-- The start of the program on files that hold one zone.
use rust_dns_server.Base.{◌≡◌, refl, true, none, some, [], ◌∷◌}
use rust_dns_server.Text.{ascii_text}
use rust_dns_server.Error.{ok}
use rust_dns_server.Cache.{CacheEntry, CacheKey, new}
use rust_dns_server.Cache.Lru.{LruCache}
use rust_dns_server.Cache.ListLru.{list_lru}
use rust_dns_server.Cache.Valid.{key_discrete}
use rust_dns_server.Zone
use rust_dns_server.Startup.{
  Config, Files, State, load_first, load_config, config_paths, store_zones, stored, load_zones,
  start,
}
use rust_dns_server.Tests.Data.{ab}
use rust_dns_server.Tests.Zones.{no_addresses, definition, zone, loads}

abbrev pub lru : LruCache CacheKey CacheEntry
lru = list_lru key_discrete

abbrev pub config : Config
config = record {
  listen_addr = ab;
  cache_size = 4;
  enable_dnssec = true;
  doh = none;
  zones_file = some ab;
}

-- Every file can be read.
abbrev pub files : Files
files = record {
  read_to_string = λ path. some path;
  parse_config = λ content. some config;
  parse_zones = λ content. some (definition ∷ []);
}

abbrev pub ready : State lru
ready = record { cache = new lru 4; zones = zone ∷ []; enable_dnssec = true }

loads_all : Zone.load_config (definition ∷ []) [] ≡ (ok tt, zone ∷ [])
unfolding Zone.load_config
loads_all = rw (Zone.load_config, loads) refl

pub starts : start files lru ≡ some ready
unfolding start load_config load_first config_paths load_zones store_zones stored
starts = rw (start, load_zones, store_zones, loads_all) refl
