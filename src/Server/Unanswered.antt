-- ===== src/Server/Unanswered.antt =====
-- A query that no other server answers: what the server of src/server/mod.rs replies with the resolver
-- of src/resolver/mod.rs behind it.
use rust_dns_server.Base.{ℕ, zero, suc, ◌≡◌, refl, ap, arith, Bool, List, [], ◌∷◌, Bytes}
use rust_dns_server.Text.{TextLib}
use rust_dns_server.Name.{DnsName}
use rust_dns_server.Codes.RecordType.{RecordType}
use rust_dns_server.Codes.ResponseCode
use rust_dns_server.Record.{DnsRecord}
use rust_dns_server.Question.{DnsQuestion}
use rust_dns_server.Message
use rust_dns_server.Message.{DnsMessage}
use rust_dns_server.Cache.{CacheEntry, CacheKey}
use rust_dns_server.Cache.Lru.{LruCache}
use rust_dns_server.Dnssec.Ring.{Crypto}
use rust_dns_server.Zone.{Zone}
use rust_dns_server.Action
use rust_dns_server.Action.{Action, Answer, done, continue, ◌>>=◌}
use rust_dns_server.Resolver.Environment.{World, Network}
use rust_dns_server.Resolver.Recursive.{root_servers, round, resolve_loop, resolve_recursive}
use rust_dns_server.Resolver.Silence.{IsSilent, query_nameservers-fails}
use rust_dns_server.Resolver.Uncached.{IsUncached, missed, resolve-uncached}
use rust_dns_server.Resolver.{not_found, zone_result, resolve}
use rust_dns_server.Server.{Handled, failed, reply, handle_query}
use rust_dns_server.Server.Answers.{IsAnswer, ReadsAs, handle_query-answers}

-- An action fails if its first step does.
first-fails :
    {W A B : Type 0} (m : Action W A) (f : A → Action W B) (code : ResponseCode.ResponseCode)
    (w : W)
    → (m w).0 ≡ Action.failed code
    → ((m >>= f) w).0 ≡ Action.failed code
unfolding ◌>>=◌
first-fails m f code w h = rw h refl

module _ ⦃t : TextLib⦄ (lru : LruCache CacheKey CacheEntry) (crypto : Crypto) (enable_dnssec : Bool)
    {Env : Type 0} (net : Network (World lru Env)) where
  recursive-fails :
      (rounds depth_left : ℕ) (name : DnsName) (record_type : RecordType) (w : World lru Env)
      → IsSilent net
      → (resolve_recursive lru crypto enable_dnssec net
          (suc rounds)
          depth_left
          name
          record_type
          w).0
        ≡ Action.failed ResponseCode.server_failure
  unfolding resolve_recursive resolve_loop round Action.fail
  recursive-fails rounds zero name record_type w quiet = refl
  recursive-fails rounds (suc depth_left) name record_type w quiet = first-fails _ _ _ w (
      first-fails _ _ _ w (
        query_nameservers-fails net enable_dnssec name record_type root_servers w quiet
          (omega arith)))

  resolve-fails :
      (rounds : ℕ) (zones : List Zone) (name : DnsName) (record_type : RecordType)
      (w : World lru Env)
      → IsSilent net
      → zone_result zones name record_type ≡ not_found
      → IsUncached lru crypto enable_dnssec net name record_type w
      → (resolve lru crypto enable_dnssec net (suc rounds) zones name record_type w).0
        ≡ Action.failed ResponseCode.server_failure
  resolve-fails rounds zones name record_type w quiet elsewhere uncached =
      rw
        (resolve-uncached lru crypto enable_dnssec net (suc rounds) zones name record_type w
          elsewhere uncached)
        (recursive-fails rounds 33 name record_type
          (missed lru crypto enable_dnssec net name record_type w) quiet)

  server_failure-IsAnswer : IsAnswer (failed ResponseCode.server_failure)
  unfolding ResponseCode.to_u8 ResponseCode.from_u8
  server_failure-IsAnswer = record {
    code_fits = omega arith;
    code_known = refl;
    answers_fit = tt;
    answers_count = omega arith;
  }

  -- If no datagram ever arrives then a well-formed query for a name which is in no local zone and not
  -- in the cache is answered all the same: with a server failure and no records. The resolver gives up
  -- after its tries at the root servers.
  pub handle_query-IsSilent :
      (rounds : ℕ) (zones : List Zone) (query : DnsMessage) (q : DnsQuestion)
      (qs : List DnsQuestion) (w : World lru Env)
      → Message.Wire.IsWire query
      → query.questions ≡ q ∷ qs
      → IsSilent net
      → zone_result zones q.name q.record_type ≡ not_found
      → IsUncached lru crypto enable_dnssec net q.name q.record_type w
      → (bytes : Bytes) × ((handle_query
            (resolve lru crypto enable_dnssec net (suc rounds) zones)
            (Message.serialize query)
            w).0
          ≡ reply bytes)
        × ReadsAs query ResponseCode.server_failure [] bytes
  handle_query-IsSilent rounds zones query q qs w v e quiet elsewhere uncached =
      let resolver = resolve lru crypto enable_dnssec net (suc rounds) zones in
      let (bytes, sent, reads) =
        handle_query-answers resolver query q qs w (resolver q.name q.record_type w).1
          (failed ResponseCode.server_failure) v e
          (ap (λ (r : Answer (List DnsRecord)). (r, (resolver q.name q.record_type w).1))
            (resolve-fails rounds zones q.name q.record_type w quiet elsewhere uncached))
          server_failure-IsAnswer in
      (bytes, ap (λ (p : Handled × World lru Env). p.0) sent, reads)
