-- ===== src/Resolver/Endless.antt =====
-- The loop over referrals in src/resolver/mod.rs need not end: two servers that refer to each other.
mod Referral
pub use Referral.*
use rust_dns_server.Base.{
  some, ℕ, zero, suc, ◌≡◌, refl, ap, ◌∙◌, Bool, true, false, not, none, List, [], ◌∷◌, length, take,
  arith, IsU16,
}
use rust_dns_server.Text.{ascii_text}
use rust_dns_server.Reader.{ok}
use rust_dns_server.Name
use rust_dns_server.Name.{DnsName, name_eq, labels_eq, text_eq}
use rust_dns_server.Header
use rust_dns_server.Rdata
use rust_dns_server.Codes.OpCode
use rust_dns_server.Codes.ResponseCode
use rust_dns_server.Codes.RecordClass
use rust_dns_server.Codes.RecordType
use rust_dns_server.Codes.RecordType.{RecordType, type_eq}
use rust_dns_server.Record
use rust_dns_server.Record.{DnsRecord}
use rust_dns_server.Question
use rust_dns_server.Message
use rust_dns_server.Message.{DnsMessage, counted}
use rust_dns_server.Cache
use rust_dns_server.Cache.{CacheEntry, CacheKey}
use rust_dns_server.Cache.Lru.{LruCache}
use rust_dns_server.Dnssec.Ring.{Crypto}
use rust_dns_server.Server.Answers.{parse-sent}
use rust_dns_server.Action.{done, unfinished, pure, perform, modify, give_up, ◌>>=◌}
use rust_dns_server.Resolver.Environment.{SocketAddr, World, Network, datagram, cache_insert}
use rust_dns_server.Resolver.Query.{
  query_nameservers, draw_offset, or_fail, try_servers, with_server, try_server, on_received,
  on_message, accept,
}
use rust_dns_server.Resolver.Recursive.{
  root_servers, at_port_53, again, is_name_error, on_response, on_referral, collect_names,
  collect_name, collect_glue, collect_address, any_name, names_eq, on_names, next_servers, Resolve,
  round, resolve_loop, resolve_recursive,
}

module _ (lru : LruCache CacheKey CacheEntry) (crypto : Crypto) where
  -- The servers answer in turn.
  abbrev pub ping_pong : Network (World lru Bool)
  ping_pong = record {
    random_u16 = λ w. (7, w);
    random_usize = λ w. (0, w);
    instant = λ w. (0, w);
    seconds = λ w. (some 0, w);
    bind_udp = λ w. (true, w);
    send_udp = λ bytes addr w. (true, w);
    recv_udp = λ w. (datagram (Message.serialize (referral w.env)), record w { env = not w.env });
    connect_tcp = λ addr w. (false, w);
    write_tcp = λ bytes w. (false, w);
    read_tcp = λ n w. (none, w);
  }

  -- What each of the servers answers.
  abbrev next_world : World lru Bool → World lru Bool
  next_world w = record w { env = not w.env }

  asked_one :
      (name : DnsName) (record_type : RecordType) (server : SocketAddr) (w : World lru Bool)
      → query_nameservers ping_pong false name record_type (server ∷ []) w
        ≡ (done (received w.env), next_world w)
  unfolding query_nameservers draw_offset or_fail try_servers with_server try_server on_received
      perform pure ◌>>=◌ on_message accept counted Header.new_query
  asked_one name record_type server w = rw (heard w.env) refl

  asked_root :
      (name : DnsName) (record_type : RecordType) (w : World lru Bool)
      → query_nameservers ping_pong false name record_type root_servers w
        ≡ (done (received w.env), next_world w)
  unfolding query_nameservers draw_offset or_fail try_servers with_server try_server on_received
      perform pure ◌>>=◌ on_message accept counted Header.new_query
  asked_root name record_type w = rw (heard w.env) refl

  abbrev glue : List SocketAddr
  glue = at_port_53 (record { octet0 = 192; octet1 = 0; octet2 = 2; octet3 = 1 }) ∷ []

  -- The cache behind a round.
  abbrev stored : Bool → LruCache.Cache lru → LruCache.Cache lru
  stored b c =
      Cache.insert lru 0 (record { name = server_name b; record_type = RecordType.a })
        (referral b).additional
        (Cache.insert lru 0 (record { name = Name.root; record_type = RecordType.ns })
          (referral b).authorities c)

  module _ (rec : Resolve lru crypto false ping_pong) (name : DnsName)
      (record_type : RecordType) where
    -- Every server of the list answers as `ping_pong` does.
    abbrev Asked : List SocketAddr → Type 0
    Asked servers =
        (w : World lru Bool)
        → query_nameservers ping_pong false name record_type servers w
          ≡ (done (received w.env), next_world w)

    round_again :
        (servers : List SocketAddr) (last : List DnsName) (b : Bool) (c : LruCache.Cache lru)
        → Asked servers
        → names_eq (server_name b ∷ []) last ≡ false
        → round lru crypto false ping_pong rec name record_type servers last
            (record { cache = c; env = b })
          ≡ (done (again glue (server_name b ∷ [])), record { cache = stored b c; env = not b })
    unfolding round ◌>>=◌ is_name_error on_response on_referral collect_names collect_name
        cache_insert modify perform pure collect_glue collect_address any_name name_eq labels_eq
        text_eq on_names next_servers type_eq RecordType.discrete Header.new_query counted
    round_again servers last true c asked e = rw (asked, e) refl
    round_again servers last false c asked e = rw (asked, e) refl

    other_name : (b : Bool) → names_eq (server_name (not b) ∷ []) (server_name b ∷ []) ≡ false
    unfolding names_eq name_eq labels_eq text_eq
    other_name true = refl
    other_name false = refl

    loop-unfinished :
        (rounds : ℕ) (servers : List SocketAddr) (last : List DnsName) (b : Bool)
        (c : LruCache.Cache lru)
        → Asked servers
        → names_eq (server_name b ∷ []) last ≡ false
        → (resolve_loop lru crypto false ping_pong rounds rec name record_type servers last
            (record { cache = c; env = b })).0
          ≡ unfinished
    unfolding resolve_loop give_up ◌>>=◌
    loop-unfinished zero servers last b c asked e = refl
    loop-unfinished (suc rounds) servers last b c asked e =
        rw (round_again servers last b c asked e) (
          loop-unfinished rounds glue (server_name b ∷ []) (not b) (stored b c)
            (asked_one name record_type _) (other_name b))

  no_names : (b : Bool) → names_eq (server_name b ∷ []) [] ≡ false
  unfolding names_eq
  no_names b = refl

  -- Two servers that refer to each other's names in turn, with glue, keep the resolver going for ever:
  -- no number of rounds ends the resolution, at no depth, for no question, and whatever the cache holds.
  pub resolve_recursive-unfinished :
      (rounds depth_left : ℕ) (name : DnsName) (record_type : RecordType) (w : World lru Bool)
      → (resolve_recursive lru crypto false ping_pong rounds (suc depth_left) name record_type w).0
        ≡ unfinished
  unfolding resolve_recursive
  resolve_recursive-unfinished rounds depth_left name record_type w =
      loop-unfinished (resolve_recursive lru crypto false ping_pong rounds depth_left) name
        record_type rounds root_servers [] w.env w.cache (asked_root name record_type)
        (no_names w.env)
