-- ===== src/Tests/Resolvers.antt =====
-- The resolver with a network that never answers, and its theorems at concrete inputs.
use rust_dns_server.Base.{
  ap, List, ◌⊎◌, All, ◌≡◌, ◌≢◌, refl, true, false, none, some, [], ◌∷◌, Bytes,
}
use rust_dns_server.Text.{ascii_text}
use rust_dns_server.Codes.RecordType
use rust_dns_server.Codes.ResponseCode
use rust_dns_server.Record.{DnsRecord}
use rust_dns_server.Message
use rust_dns_server.Cache.{CacheEntry, CacheKey, new}
use rust_dns_server.Cache.Lru.{LruCache}
use rust_dns_server.Cache.ListLru.{list_lru, find}
use rust_dns_server.Zone.{store_lookup, find_zone, best_of}
use rust_dns_server.Cache.Valid.{key_discrete, IsValid, new-IsValid}
use rust_dns_server.Resolver.Recursive.{resolve_recursive}
use rust_dns_server.Resolver.Endless.{ping_pong, resolve_recursive-unfinished}
use rust_dns_server.Action.{unfinished, panicked, Answer, perform, ◌>>=◌}
use rust_dns_server.Cache
use rust_dns_server.Resolver.Uncached.{IsUncached}
use rust_dns_server.Server.Unanswered.{handle_query-IsSilent}
use rust_dns_server.Cache.Typed.{new-IsTyped}
use rust_dns_server.Resolver.Safety.Types.{HasTypedCache, resolve-HasType}
use rust_dns_server.Resolver.Safety.Waits.{Held, observed, unobserved, resolve-Held}
use rust_dns_server.Resolver.{resolve, zone_result, not_found}
use rust_dns_server.Resolver.Environment.{World, Network, timed_out, cache_lookup}
use rust_dns_server.Resolver.Safety.Resolve.{
  Undisturbed, HasValidCache, Harmless, resolve-IsValid, resolve-ne-panicked,
}
use rust_dns_server.Server.{reply, handle_query}
use rust_dns_server.Server.Answers.{ReadsAs}
use rust_dns_server.Server.Local.{resolve_local}
use rust_dns_server.Tests.Data.{www_ab, question, mail, message}
use rust_dns_server.Tests.Messages.{message-IsWire}
use rust_dns_server.Tests.Zones.{no_addresses, configured, zone, store_finds_mail}
use rust_dns_server.Tests.Validators.{lenient}

abbrev pub lru : LruCache CacheKey CacheEntry
lru = list_lru key_discrete

abbrev pub Here : Type 0
Here = World lru (Unit {0})

-- Sends succeed, and nothing ever arrives.
abbrev pub silent : Network Here
silent = record {
  random_u16 = λ w. (7, w);
  random_usize = λ w. (5, w);
  instant = λ w. (0, w);
  seconds = λ w. (some 0, w);
  bind_udp = λ w. (true, w);
  send_udp = λ bytes addr w. (true, w);
  recv_udp = λ w. (timed_out, w);
  connect_tcp = λ addr w. (false, w);
  write_tcp = λ bytes w. (false, w);
  read_tcp = λ n w. (none, w);
}

abbrev pub start : Here
start = record { cache = new lru 4; env = tt }

undisturbed : Undisturbed lru lenient true silent (HasValidCache lru lenient true silent)
undisturbed = record {
  random_u16 = λ w h. h;
  random_usize = λ w h. h;
  instant = λ w h. h;
  seconds = λ w h. h;
  bind_udp = λ w h. h;
  send_udp = λ bytes addr w h. h;
  recv_udp = λ w h. h;
  connect_tcp = λ addr w h. h;
  write_tcp = λ bytes w h. h;
  read_tcp = λ n w h. h;
}

harmless : Harmless lru lenient true silent
harmless = record {
  clock = λ w. cc;
  udp = λ w bytes e. absurd (cc);
  tcp = λ n w bytes e. absurd (cc);
}

resolve-IsValid_example :
    IsValid lru (resolve lru lenient true silent 9 (zone ∷ []) www_ab RecordType.a start).1.cache
resolve-IsValid_example =
    resolve-IsValid lru lenient true silent 9 (zone ∷ []) www_ab RecordType.a start undisturbed
      (new-IsValid lru 4)

resolve-ne-panicked_example :
    (resolve lru lenient true silent 9 (zone ∷ []) www_ab RecordType.a start).0 ≢ panicked
resolve-ne-panicked_example =
    resolve-ne-panicked lru lenient true silent 9 (zone ∷ []) www_ab RecordType.a start harmless

pub typed_undisturbed : Undisturbed lru lenient true silent (HasTypedCache lru lenient true silent)
typed_undisturbed = record {
  random_u16 = λ w h. h;
  random_usize = λ w h. h;
  instant = λ w h. h;
  seconds = λ w h. h;
  bind_udp = λ w h. h;
  send_udp = λ bytes addr w h. h;
  recv_udp = λ w h. h;
  connect_tcp = λ addr w h. h;
  write_tcp = λ bytes w h. h;
  read_tcp = λ n w h. h;
}

resolve-HasType_example :
    All
      (λ (r : DnsRecord). (r.record_type ≡ RecordType.mx) ⊎ (r.record_type ≡ RecordType.cname))
      (mail ∷ [])
resolve-HasType_example =
    resolve-HasType lru lenient true silent 9 (zone ∷ []) www_ab RecordType.mx start (mail ∷ [])
      typed_undisturbed configured (new-IsValid lru 4, new-IsTyped lru 4)
      (ap (λ (p : Answer (List DnsRecord) × Here). p.0)
        (resolve_local lru lenient true silent 9 (zone ∷ []) www_ab RecordType.mx (mail ∷ []) start
          store_finds_mail))

resolve_recursive-unfinished_example :
    (resolve_recursive lru lenient false
      (ping_pong lru lenient)
      1000
      33
      www_ab
      RecordType.a
      (record { cache = new lru 4; env = true })).0
    ≡ unfinished
resolve_recursive-unfinished_example =
    resolve_recursive-unfinished lru lenient 1000 32 www_ab RecordType.a
      (record { cache = new lru 4; env = true })

nothing_cached : IsUncached lru lenient true silent www_ab RecordType.mx start
unfolding cache_lookup Cache.lookup perform ◌>>=◌ Cache.serve find new
nothing_cached = record { no_records = refl; no_alias = refl }

pub no_zone : zone_result [] www_ab RecordType.mx ≡ not_found
unfolding zone_result store_lookup find_zone best_of
no_zone = refl

handle_query-IsSilent_example :
    (bytes : Bytes) × ((handle_query
        (resolve lru lenient true silent 9 [])
        (Message.serialize message)
        start).0
      ≡ reply bytes)
    × ReadsAs message ResponseCode.server_failure [] bytes
handle_query-IsSilent_example =
    handle_query-IsSilent lru lenient true silent 8 [] message question [] start message-IsWire refl
      (λ w bytes p. cc) no_zone nothing_cached

resolve-Held_example :
    Held lru
      (HasTypedCache lru lenient true silent)
      (resolve lru lenient true
        (observed lru silent)
        9
        (zone ∷ [])
        www_ab
        RecordType.a
        (unobserved lru start)).1
resolve-Held_example =
    resolve-Held lru lenient true silent 9 (zone ∷ []) www_ab RecordType.a start typed_undisturbed
      configured (new-IsValid lru 4, new-IsTyped lru 4)
