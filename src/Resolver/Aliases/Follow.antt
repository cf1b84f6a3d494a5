-- ===== src/Resolver/Aliases/Follow.antt =====
-- Where `Resolver::resolve` of src/resolver/mod.rs gets to over aliases that root servers answer with.
use mathlib.Core.Path.{sym}
use rust_dns_server.Base.{
  ℕ, zero, suc, ◌+◌, ◌-◌, ◌<◌, ◌≡◌, refl, ap, ◌∙◌, Bool, List, [], ◌∷◌, ◌++◌, length, arith,
}
use rust_dns_server.Text.{TextLib}
use rust_dns_server.Name.{DnsName}
use rust_dns_server.Codes.RecordType.{RecordType}
use rust_dns_server.Codes.ResponseCode
use rust_dns_server.Record.{DnsRecord}
use rust_dns_server.Message.{DnsMessage}
use rust_dns_server.Cache.{CacheEntry, CacheKey}
use rust_dns_server.Cache.Lru.{LruCache}
use rust_dns_server.Dnssec.Ring.{Crypto}
use rust_dns_server.Zone.{Zone}
use rust_dns_server.Action.{done}
use rust_dns_server.Resolver.Environment.{World, Network}
use rust_dns_server.Resolver.Recursive.{root_servers, resolve_recursive}
use rust_dns_server.Resolver.Uncached.{IsUncached, missed, resolve-uncached}
use rust_dns_server.Resolver.Found.{Exchange, answered}
use rust_dns_server.Resolver.Remember.{validated, remembered, IsAfterEpoch, Answers, recursive-done}
use rust_dns_server.Resolver.{not_found, zone_result, resolve}
use rust_dns_server.Resolver.Aliases.{Aliased, stays, goes_on, recursive-alias-done}

module _ ⦃t : TextLib⦄ (lru : LruCache CacheKey CacheEntry) (crypto : Crypto) (enable_dnssec : Bool)
    {Env : Type 0} (net : Network (World lru Env)) (target : RecordType) where
  nonempty :
      (links : List DnsRecord) (r : DnsRecord) (rs : List DnsRecord)
      → (y : DnsRecord) × (ys : List DnsRecord) × (links ++ (r ∷ rs) ≡ y ∷ ys)
  nonempty [] r rs = (r, rs, refl)
  nonempty (link ∷ links) r rs = (link, links ++ (r ∷ rs), refl)

  recursive-Aliased :
      (rounds depth_left more : ℕ) {name last : DnsName} {w w' : World lru Env}
      {links : List DnsRecord} (w'' : World lru Env) (r : DnsRecord) (rs : List DnsRecord)
      → depth_left ≡ length links + more
      → IsAfterEpoch lru crypto enable_dnssec net
      → Aliased lru crypto enable_dnssec net target name w links last w'
      → resolve_recursive lru crypto enable_dnssec net (suc rounds) more last target w'
        ≡ (done (r ∷ rs), w'')
      → resolve_recursive lru crypto enable_dnssec net (suc rounds) depth_left name target w
        ≡ (done (links ++ (r ∷ rs)), w'')
  recursive-Aliased rounds depth_left more w'' r rs e after (stays name w) found =
      let same : depth_left ≡ more = omega arith in rw same found
  recursive-Aliased rounds zero more w'' r rs e after (goes_on response x redirects rest) found =
      absurd (omega arith)
  recursive-Aliased rounds (suc depth_left) more {w} w'' r rs e after
        (goes_on {link} {links} response x redirects rest) found =
      let (y, ys, cons) = nonempty links r rs in
      recursive-alias-done lru crypto enable_dnssec net target rounds depth_left w w'' response x y
        ys after redirects
        (recursive-Aliased rounds depth_left more w'' r rs (omega arith) after rest found
          ∙ ap (λ records. (done records, w'')) cons)
      ∙ ap (λ records. (done (link ∷ records), w'')) (sym cons)

  -- If root servers answer a question that neither the zones nor the cache answer with one alias after
  -- the other, at most 32 of them, and the last name with records of the type, then the resolver
  -- returns the aliases in their order and then exactly these records. The system clock is never before
  -- the epoch.
  pub resolve-Aliased :
      (rounds : ℕ) (zones : List Zone) (name last : DnsName) (w w' : World lru Env)
      (links : List DnsRecord) (response : DnsMessage) (r : DnsRecord) (rs : List DnsRecord)
      (x : Exchange net enable_dnssec last target root_servers w' response)
      → zone_result zones name target ≡ not_found
      → IsUncached lru crypto enable_dnssec net name target w
      → IsAfterEpoch lru crypto enable_dnssec net
      → Aliased lru crypto enable_dnssec net target name
          (missed lru crypto enable_dnssec net name target w)
          links
          last
          w'
      → length links < 33
      → Answers lru crypto enable_dnssec net target response r rs
      → resolve lru crypto enable_dnssec net (suc rounds) zones name target w ≡ (
        done (links ++ (r ∷ rs)),
        remembered lru crypto enable_dnssec net last target
            (r ∷ rs)
            (validated lru crypto enable_dnssec net response (answered net x)),
      )
  resolve-Aliased rounds zones name last w w' links response r rs x elsewhere uncached after a few
        answers =
      resolve-uncached lru crypto enable_dnssec net (suc rounds) zones name target w elsewhere
        uncached
      ∙ recursive-Aliased rounds 33 (suc (32 - length links)) _ r rs (omega arith) after a (
          recursive-done lru crypto enable_dnssec net rounds (32 - length links) last target w'
            response r rs x after answers)
