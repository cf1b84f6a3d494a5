-- ===== src/Server/Denied.antt =====
-- A query for a name that a root server denies: what the server of src/server/mod.rs replies with the
-- resolver of src/resolver/mod.rs behind it.
use rust_dns_server.Base.{ℕ, suc, ◌≡◌, refl, ◌∙◌, arith, Bool, true, List, [], ◌∷◌, Bytes}
use rust_dns_server.Text.{TextLib}
use rust_dns_server.Name.{DnsName}
use rust_dns_server.Codes.RecordType.{RecordType}
use rust_dns_server.Codes.ResponseCode
use rust_dns_server.Question.{DnsQuestion}
use rust_dns_server.Message
use rust_dns_server.Message.{DnsMessage}
use rust_dns_server.Cache.{CacheEntry, CacheKey}
use rust_dns_server.Cache.Lru.{LruCache}
use rust_dns_server.Dnssec.Ring.{Crypto}
use rust_dns_server.Zone.{Zone}
use rust_dns_server.Action
use rust_dns_server.Action.{◌>>=◌}
use rust_dns_server.Resolver.Environment.{World, Network}
use rust_dns_server.Resolver.Recursive.{
  root_servers, is_name_error, round, resolve_loop, resolve_recursive,
}
use rust_dns_server.Resolver.Uncached.{IsUncached, missed, resolve-uncached}
use rust_dns_server.Resolver.Found.{Exchange, answered, query_nameservers-done}
use rust_dns_server.Resolver.{not_found, zone_result, resolve}
use rust_dns_server.Server.{failed, reply, handle_query}
use rust_dns_server.Server.Answers.{IsAnswer, ReadsAs, handle_query-answers}

name_error-IsAnswer : ⦃t : TextLib⦄ → IsAnswer (failed ResponseCode.name_error)
unfolding ResponseCode.to_u8 ResponseCode.from_u8
name_error-IsAnswer = record {
  code_fits = omega arith;
  code_known = refl;
  answers_fit = tt;
  answers_count = omega arith;
}

module _ ⦃t : TextLib⦄ (lru : LruCache CacheKey CacheEntry) (crypto : Crypto) (enable_dnssec : Bool)
    {Env : Type 0} (net : Network (World lru Env)) where
  recursive-denied :
      (rounds depth_left : ℕ) (name : DnsName) (record_type : RecordType) (w : World lru Env)
      (response : DnsMessage)
      (x : Exchange net enable_dnssec name record_type root_servers w response)
      → is_name_error response.header.response_code ≡ true
      → resolve_recursive lru crypto enable_dnssec net
          (suc rounds)
          (suc depth_left)
          name
          record_type
          w
        ≡ (Action.failed ResponseCode.name_error, answered net x)
  unfolding resolve_recursive resolve_loop round ◌>>=◌ Action.fail
  recursive-denied rounds depth_left name record_type w response x denied =
      rw
        (
          query_nameservers-done net enable_dnssec name record_type root_servers w response x
              (omega arith),
          denied,
        )
        refl

  -- If a root server says that the name of a well-formed query does not exist, and neither the zones
  -- nor the cache know it, then the client reads the same: a name error, without records. The cache is
  -- as the network leaves it: that the name does not exist is not remembered.
  pub handle_query-denied :
      (rounds : ℕ) (zones : List Zone) (query : DnsMessage) (q : DnsQuestion)
      (qs : List DnsQuestion) (w : World lru Env) (response : DnsMessage)
      (x : Exchange net enable_dnssec q.name q.record_type root_servers
        (missed lru crypto enable_dnssec net q.name q.record_type w)
        response)
      → Message.Wire.IsWire query
      → query.questions ≡ q ∷ qs
      → zone_result zones q.name q.record_type ≡ not_found
      → IsUncached lru crypto enable_dnssec net q.name q.record_type w
      → is_name_error response.header.response_code ≡ true
      → (bytes : Bytes) × (handle_query
            (resolve lru crypto enable_dnssec net (suc rounds) zones)
            (Message.serialize query)
            w
          ≡ (reply bytes, answered net x))
        × ReadsAs query ResponseCode.name_error [] bytes
  handle_query-denied rounds zones query q qs w response x v e elsewhere uncached denied =
      handle_query-answers (resolve lru crypto enable_dnssec net (suc rounds) zones) query q qs w
        (answered net x) (failed ResponseCode.name_error) v e
        (resolve-uncached lru crypto enable_dnssec net (suc rounds) zones q.name q.record_type w
            elsewhere uncached
          ∙ recursive-denied rounds 32 q.name q.record_type
              (missed lru crypto enable_dnssec net q.name q.record_type w) response x denied)
        name_error-IsAnswer
