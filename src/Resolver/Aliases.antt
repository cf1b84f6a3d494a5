-- ===== src/Resolver/Aliases.antt =====
-- `resolve_recursive` and `follow_cname_chain` of src/resolver/mod.rs on names that are aliases: each
-- alias that a root server answers with is followed by one more nested call.
pub mod Follow
use mathlib.Core.Path.{sym}
use rust_dns_server.Base.{
  ℕ, zero, suc, ◌+◌, ◌-◌, ◌<◌, ◌≡◌, refl, ap, ◌∙◌, Bool, false, some, List, [], ◌∷◌, ◌++◌, length,
  arith,
}
use rust_dns_server.Text.{TextLib}
use rust_dns_server.Name.{DnsName}
use rust_dns_server.Codes.RecordType.{RecordType}
use rust_dns_server.Codes.ResponseCode
use rust_dns_server.Record.{DnsRecord}
use rust_dns_server.Message.{DnsMessage}
use rust_dns_server.Cache.{CacheEntry, CacheKey}
use rust_dns_server.Cache.Lru.{LruCache}
use rust_dns_server.Dnssec.{of_type}
use rust_dns_server.Dnssec.Ring.{Crypto}
use rust_dns_server.Zone.{Zone}
use rust_dns_server.Action.{done, failed, perform, modify, pure, fail, ◌>>=◌}
use rust_dns_server.Resolver.Environment.{World, Network, cache_insert}
use rust_dns_server.Resolver.Chain.{
  target_of, last_target, on_target, chain_loop, start_chain, follow_cname_chain,
}
use rust_dns_server.Resolver.Recursive.{
  root_servers, finish, again, is_name_error, cnames_of, use_answers, on_answers, on_response,
  Resolve, round, resolve_loop, resolve_recursive,
}
use rust_dns_server.Resolver.Uncached.{IsUncached, missed, resolve-uncached}
use rust_dns_server.Resolver.Found.{Exchange, answered, query_nameservers-done}
use rust_dns_server.Resolver.Remember.{
  validated, remembered, validate-done, IsAfterEpoch, Answers, recursive-done,
}
use rust_dns_server.Resolver.{not_found, zone_result, resolve}

module _ ⦃t : TextLib⦄ (lru : LruCache CacheKey CacheEntry) (crypto : Crypto) (enable_dnssec : Bool)
    {Env : Type 0} (net : Network (World lru Env)) (target : RecordType) where
  -- A response without an error and without records of the type, with one alias.
  pub record Redirects (response : DnsMessage) (link : DnsRecord) (next : DnsName) : Type 0 where
    pub no_error : is_name_error response.header.response_code ≡ false
    pub none_of_the_type : of_type target response.answers ≡ []
    pub one_alias : cnames_of target response.answers ≡ link ∷ []
    pub leads : target_of link.rdata ≡ some next

  -- The alias is in the cache.
  abbrev pub redirected : DnsName → DnsRecord → DnsMessage → World lru Env → World lru Env
  redirected name link response w =
      remembered lru crypto enable_dnssec net name RecordType.cname (link ∷ [])
        (validated lru crypto enable_dnssec net response w)

  -- From a name and a world, root servers answer with these aliases, one after the other, up to another
  -- name and world.
  pub data Aliased
      : DnsName → World lru Env → List DnsRecord → DnsName → World lru Env → Type 0 where
    stays : (name : DnsName) (w : World lru Env) → Aliased name w [] name w
    goes_on :
        {name next last : DnsName} {w w' : World lru Env} {link : DnsRecord}
        {links : List DnsRecord} (response : DnsMessage)
        (x : Exchange net enable_dnssec name target root_servers w response)
        → Redirects response link next
        → Aliased next (redirected name link response (answered net x)) links last w'
        → Aliased name w (link ∷ links) last w'

  module _ (rec : Resolve lru crypto enable_dnssec net) (name next : DnsName) (link : DnsRecord)
      (response : DnsMessage) (after : IsAfterEpoch lru crypto enable_dnssec net)
      (redirects : Redirects response link next) where
    use_answers-alias :
        (found cnames : List DnsRecord) (w : World lru Env)
        → found ≡ []
        → cnames ≡ link ∷ []
        → use_answers lru crypto enable_dnssec net rec name target found cnames w
          ≡ chain_loop rec 16 target
              (link ∷ [], next)
              (remembered lru crypto enable_dnssec net name RecordType.cname (link ∷ []) w)
    unfolding use_answers cache_insert follow_cname_chain start_chain last_target ◌>>=◌ perform
        modify
    use_answers-alias found cnames w e f = rw (e, f, redirects.leads) refl

    on_answers-alias :
        (w : World lru Env)
        → on_answers lru crypto enable_dnssec net rec name target response w
          ≡ (chain_loop rec 16 target (link ∷ [], next) >>= λ records. pure (finish records))
              (redirected name link response w)
    unfolding on_answers ◌>>=◌
    on_answers-alias w =
        rw
          (
            validate-done lru crypto enable_dnssec net response w after,
            use_answers-alias _ _ (validated lru crypto enable_dnssec net response w)
                redirects.none_of_the_type redirects.one_alias,
          )
          refl

    on_response-alias :
        (last : List DnsName) (answers : List DnsRecord) (w : World lru Env)
        → response.answers ≡ answers
        → cnames_of target answers ≡ link ∷ []
        → on_response lru crypto enable_dnssec net rec name target last response answers w
          ≡ (chain_loop rec 16 target (link ∷ [], next) >>= λ records. pure (finish records))
              (redirected name link response w)
    unfolding on_response cnames_of
    on_response-alias last [] w same e = absurd (cc)
    on_response-alias last (q ∷ qs) w same e = on_answers-alias w

  -- What an alias leads to is what the rest of the loop of `follow_cname_chain` ends with.
  recursive-alias :
      (rounds depth_left : ℕ) {name next : DnsName} {link : DnsRecord} (w : World lru Env)
      (response : DnsMessage) (x : Exchange net enable_dnssec name target root_servers w response)
      → IsAfterEpoch lru crypto enable_dnssec net
      → Redirects response link next
      → resolve_recursive lru crypto enable_dnssec net (suc rounds) (suc depth_left) name target w
        ≡ ((chain_loop
                  (resolve_recursive lru crypto enable_dnssec net (suc rounds) depth_left)
                  16
                  target
                  (link ∷ [], next)
                >>= λ records. pure (finish records))
              >>= elim [
                | finish records ↦ pure records
                | again servers names ↦
                    resolve_loop lru crypto enable_dnssec net rounds
                      (resolve_recursive lru crypto enable_dnssec net (suc rounds) depth_left)
                      name
                      target
                      servers
                      names
              ])
            (redirected name link response (answered net x))
  unfolding resolve_recursive resolve_loop round ◌>>=◌
  recursive-alias rounds depth_left {name} {next} {link} w response x after redirects =
      rw
        (
          query_nameservers-done net enable_dnssec name target root_servers w response x
              (omega arith),
          redirects.no_error,
          on_response-alias (resolve_recursive lru crypto enable_dnssec net (suc rounds) depth_left)
              name next link response after redirects [] response.answers (answered net x) refl
              redirects.one_alias,
        )
        refl

  pub recursive-alias-done :
      (rounds depth_left : ℕ) {name next : DnsName} {link : DnsRecord} (w w' : World lru Env)
      (response : DnsMessage) (x : Exchange net enable_dnssec name target root_servers w response)
      (r : DnsRecord) (rs : List DnsRecord)
      → IsAfterEpoch lru crypto enable_dnssec net
      → Redirects response link next
      → resolve_recursive lru crypto enable_dnssec net
          (suc rounds)
          depth_left
          next
          target
          (redirected name link response (answered net x))
        ≡ (done (r ∷ rs), w')
      → resolve_recursive lru crypto enable_dnssec net (suc rounds) (suc depth_left) name target w
        ≡ (done (link ∷ r ∷ rs), w')
  unfolding chain_loop on_target ◌>>=◌ pure
  recursive-alias-done rounds depth_left w w' response x r rs after redirects e =
      recursive-alias rounds depth_left w response x after redirects ∙ rw e refl

  pub recursive-alias-failed :
      (rounds depth_left : ℕ) {name next : DnsName} {link : DnsRecord} (w w' : World lru Env)
      (response : DnsMessage) (x : Exchange net enable_dnssec name target root_servers w response)
      (code : ResponseCode.ResponseCode)
      → IsAfterEpoch lru crypto enable_dnssec net
      → Redirects response link next
      → resolve_recursive lru crypto enable_dnssec net
          (suc rounds)
          depth_left
          next
          target
          (redirected name link response (answered net x))
        ≡ (failed code, w')
      → resolve_recursive lru crypto enable_dnssec net (suc rounds) (suc depth_left) name target w
        ≡ (failed code, w')
  unfolding chain_loop ◌>>=◌
  recursive-alias-failed rounds depth_left w w' response x code after redirects e =
      recursive-alias rounds depth_left w response x after redirects ∙ rw e refl
