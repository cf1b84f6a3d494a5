-- ===== src/Resolver/Remember.antt =====
-- The resolver of src/resolver/mod.rs and its cache: what one resolution finds, the next returns.
use rust_dns_server.Base.{
  ℕ, suc, ◌-◌, ◌<◌, ◌≡◌, ◌≢◌, refl, ap, ◌∙◌, inl, inr, Bool, false, none, some, List, [], ◌∷◌, ◌++◌,
  map, arith, Bool-cases, if◌then◌else◌,
}
use rust_dns_server.Text.{TextLib}
use rust_dns_server.Name.{DnsName}
use rust_dns_server.Codes.RecordType.{RecordType}
use rust_dns_server.Record.{DnsRecord}
use rust_dns_server.Message.{DnsMessage}
use rust_dns_server.Cache
use rust_dns_server.Cache.{CacheEntry, CacheKey, from_secs, with_ttl, min_ttl, smaller, max_ttl}
use rust_dns_server.Cache.Lru.{LruCache}
use rust_dns_server.Cache.Lookup.{left, lookup-insert}
use rust_dns_server.Dnssec.{
  ValidationResult, secure, insecure, bogus, indeterminate, of_type, validate_response,
}
use rust_dns_server.Dnssec.Clock.{validate_response-Ends}
use rust_dns_server.Dnssec.Ring.{Crypto}
use rust_dns_server.Dnssec.Secure.{validate_response-ne_bogus}
use rust_dns_server.Zone.{Zone}
use rust_dns_server.Action.{done, perform, modify, pure, ◌>>=◌}
use rust_dns_server.Resolver.Environment.{World, Network, cache_lookup, cache_insert}
use rust_dns_server.Resolver.Recursive.{
  root_servers, finish, is_name_error, refuse_bogus, validate, use_answers, on_answers, on_response,
  Resolve, round, resolve_loop, resolve_recursive,
}
use rust_dns_server.Resolver.Uncached.{IsUncached, missed, first-done, resolve-uncached}
use rust_dns_server.Resolver.Found.{Exchange, answered, query_nameservers-done}
use rust_dns_server.Resolver.{not_found, zone_result, from_cache, from_zone, resolve}

refuse-done :
    {W : Type 0} (v : ValidationResult) (w : W) → v ≢ bogus → refuse_bogus v w ≡ (done tt, w)
unfolding refuse_bogus pure
refuse-done secure w h = refl
refuse-done insecure w h = refl
refuse-done bogus w h = absurd (h refl)
refuse-done indeterminate w h = refl

module _ ⦃t : TextLib⦄ (lru : LruCache CacheKey CacheEntry) (crypto : Crypto) (enable_dnssec : Bool)
    {Env : Type 0} (net : Network (World lru Env)) where
  -- The world after the validation of a response.
  abbrev pub validated : DnsMessage → World lru Env → World lru Env
  validated response w =
      if enable_dnssec
      then (validate_response crypto net.seconds
          (response.answers ++ (response.authorities ++ response.additional)) w).1
      else w

  -- The clock never stands before the epoch.
  abbrev pub IsAfterEpoch : Type 0
  IsAfterEpoch = (w : World lru Env) → (net.seconds w).0 ≢ none

  -- The clock is read, and the records go into the cache.
  abbrev pub remembered : DnsName → RecordType → List DnsRecord → World lru Env → World lru Env
  remembered name record_type records w = record ((net.instant w).1) {
    cache =
        Cache.insert lru (net.instant w).0 (record { name = name; record_type = record_type })
          records (net.instant w).1.cache;
  }

  pub validate-done :
      (response : DnsMessage) (w : World lru Env)
      → IsAfterEpoch
      → validate lru crypto enable_dnssec net response w ≡ (done tt, validated response w)
  unfolding validate ◌>>=◌ pure
  validate-done response w after =
      let records = response.answers ++ (response.authorities ++ response.additional) in
      elim (Bool-cases enable_dnssec) [
        | inr off ↦ rw off refl
        | inl on ↦
            let (v, e) = validate_response-Ends crypto net.seconds after records w in
            rw (on, e)
              (refuse-done v (validate_response crypto net.seconds records w).1
                λ b. validate_response-ne_bogus crypto net.seconds records w (rw (← b) e))
      ]

  module _ (rec : Resolve lru crypto enable_dnssec net) (name : DnsName) (record_type : RecordType)
      (r : DnsRecord) (rs : List DnsRecord) where
    use_answers-done :
        (found : List DnsRecord) (cnames : List DnsRecord) (w : World lru Env)
        → found ≡ r ∷ rs
        → use_answers lru crypto enable_dnssec net rec name record_type found cnames w
          ≡ (done (r ∷ rs), remembered name record_type (r ∷ rs) w)
    unfolding use_answers cache_insert ◌>>=◌ perform modify pure
    use_answers-done found cnames w e = rw e refl

    on_answers-done :
        (response : DnsMessage) (w : World lru Env)
        → IsAfterEpoch
        → of_type record_type response.answers ≡ r ∷ rs
        → on_answers lru crypto enable_dnssec net rec name record_type response w
          ≡ (done (finish (r ∷ rs)), remembered name record_type (r ∷ rs) (validated response w))
    unfolding on_answers ◌>>=◌ pure
    on_answers-done response w after e =
        rw (validate-done response w after, use_answers-done _ _ (validated response w) e) refl

    on_response-done :
        (last : List DnsName) (response : DnsMessage) (answers : List DnsRecord) (w : World lru Env)
        → IsAfterEpoch
        → response.answers ≡ answers
        → of_type record_type answers ≡ r ∷ rs
        → on_response lru crypto enable_dnssec net rec name record_type last response answers w
          ≡ (done (finish (r ∷ rs)), remembered name record_type (r ∷ rs) (validated response w))
    unfolding on_response of_type
    on_response-done last response [] w after same e = absurd (cc)
    on_response-done last response (q ∷ qs) w after same e =
        on_answers-done response w after (ap (of_type record_type) same ∙ e)

  -- A response without an error that has these records of the type among its answers.
  pub record Answers (record_type : RecordType) (response : DnsMessage) (r : DnsRecord)
      (rs : List DnsRecord) : Type 0 where
    pub no_error : is_name_error response.header.response_code ≡ false
    pub of_the_type : of_type record_type response.answers ≡ r ∷ rs

  pub recursive-done :
      (rounds depth_left : ℕ) (name : DnsName) (record_type : RecordType) (w : World lru Env)
      (response : DnsMessage) (r : DnsRecord) (rs : List DnsRecord)
      (x : Exchange net enable_dnssec name record_type root_servers w response)
      → IsAfterEpoch
      → Answers record_type response r rs
      → resolve_recursive lru crypto enable_dnssec net
          (suc rounds)
          (suc depth_left)
          name
          record_type
          w
        ≡ (
          done (r ∷ rs),
          remembered name record_type (r ∷ rs) (validated response (answered net x)),
        )
  unfolding resolve_recursive resolve_loop round ◌>>=◌ pure
  recursive-done rounds depth_left name record_type w response r rs x after a =
      rw
        (
          query_nameservers-done net enable_dnssec name record_type root_servers w response x
              (omega arith),
          a.no_error,
          on_response-done (resolve_recursive lru crypto enable_dnssec net (suc rounds) depth_left)
              name record_type r rs [] response response.answers (answered net x) after refl
              a.of_the_type,
        )
        refl

  -- Reading the clock leaves the cache as it is: no other task gets at it meanwhile.
  abbrev pub IsCalm : Type 0
  IsCalm = (w : World lru Env) → (net.instant w).1.cache ≡ w.cache

  -- The nanoseconds from the first reading of the clock to the first and the second one of a lookup.
  abbrev pub age : World lru Env → World lru Env → ℕ
  age w w' = (net.instant w').0 - (net.instant w).0

  abbrev pub later_age : World lru Env → World lru Env → ℕ
  later_age w w' = age w (net.instant w').1

  -- How many seconds the records are kept.
  abbrev pub lifetime : DnsRecord → List DnsRecord → ℕ
  lifetime r rs = smaller (min_ttl r rs) max_ttl

  cache_lookup-remembered :
      (name : DnsName) (record_type : RecordType) (r : DnsRecord) (rs : List DnsRecord)
      (w : World lru Env)
      → IsCalm
      → LruCache.cap lru (net.instant w).1.cache ≢ 0
      → 0 < min_ttl r rs
      → age w (remembered name record_type (r ∷ rs) w) < from_secs (lifetime r rs)
      → (cache_lookup lru net name record_type (remembered name record_type (r ∷ rs) w)).0
        ≡ done (
            some (
              map
                (with_ttl
                  (left (lifetime r rs) (later_age w (remembered name record_type (r ∷ rs) w))))
                (r ∷ rs)))
  unfolding cache_lookup ◌>>=◌ perform
  cache_lookup-remembered name record_type r rs w calm room positive young =
      let w' = remembered name record_type (r ∷ rs) w in
      let key : CacheKey = record { name = name; record_type = record_type } in
      let t₀ = (net.instant w').0 in
      let t₁ = (net.instant (net.instant w').1).0 in
      ap done (
        ap (λ c. (Cache.lookup lru t₀ t₁ key c).0) (calm (net.instant w').1 ∙ calm w')
        ∙ lookup-insert lru (net.instant w).0 t₀ t₁ key r rs (net.instant w).1.cache room positive
            young)

  -- A root server's answer to a question that neither the zones nor the cache answer is what the
  -- resolver returns: exactly its records of the type, in their order. Before the smallest of their
  -- TTLs has passed, and before a day has, the next resolution of the question returns them again, each
  -- with the seconds that are left of the smaller of the two. The TTLs are above zero, the cache has
  -- room for an entry, reading the clock leaves it as it is, and the system clock is never before the
  -- epoch.
  pub resolve-remembered :
      (rounds : ℕ) (zones : List Zone) (name : DnsName) (record_type : RecordType)
      (w : World lru Env) (response : DnsMessage) (r : DnsRecord) (rs : List DnsRecord)
      (x : Exchange net enable_dnssec name record_type root_servers
        (missed lru crypto enable_dnssec net name record_type w)
        response)
      → zone_result zones name record_type ≡ not_found
      → IsUncached lru crypto enable_dnssec net name record_type w
      → IsAfterEpoch
      → Answers record_type response r rs
      → IsCalm
      → LruCache.cap lru (net.instant (validated response (answered net x))).1.cache ≢ 0
      → 0 < min_ttl r rs
      → age
          (validated response (answered net x))
          (remembered name record_type (r ∷ rs) (validated response (answered net x)))
        < from_secs (lifetime r rs)
      → (resolve lru crypto enable_dnssec net (suc rounds) zones name record_type w ≡ (
        done (r ∷ rs),
        remembered name record_type (r ∷ rs) (validated response (answered net x)),
      ))
        × ((resolve lru crypto enable_dnssec net
              (suc rounds)
              zones
              name
              record_type
              (remembered name record_type (r ∷ rs) (validated response (answered net x)))).0
            ≡ done (
                map
                  (with_ttl (
                    left (lifetime r rs) (
                      later_age (validated response (answered net x)) (
                        remembered name record_type
                          (r ∷ rs)
                          (validated response (answered net x))))))
                  (r ∷ rs)))
  unfolding resolve from_zone from_cache pure
  resolve-remembered rounds zones name record_type w response r rs x elsewhere uncached after a calm
        room positive young =
      (
        resolve-uncached lru crypto enable_dnssec net (suc rounds) zones name record_type w
              elsewhere uncached
            ∙ recursive-done rounds 32 name record_type
                (missed lru crypto enable_dnssec net name record_type w) response r rs x after a,
        rw (resolve, elsewhere)
            (ap (λ p. p.0)
              (first-done (cache_lookup lru net name record_type)
                (from_cache lru crypto enable_dnssec net (suc rounds) name record_type) _
                (remembered name record_type (r ∷ rs) (validated response (answered net x)))
                (cache_lookup-remembered name record_type r rs (validated response (answered net x))
                  calm room positive young))),
      )
