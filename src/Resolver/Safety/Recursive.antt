-- ===== src/Resolver/Safety/Recursive.antt =====
-- `resolve_recursive` keeps what the world keeps, and each round of it hands a server to the next.
use rust_dns_server.Base.{
  ℕ, zero, suc, ◌≢◌, Bool, Option, none, some, List, [], ◌∷◌, length, arith, All,
}
use rust_dns_server.Text.{TextLib}
use rust_dns_server.Name.{DnsName}
use rust_dns_server.Codes.RecordType.{RecordType, type_eq}
use rust_dns_server.Codes.ResponseCode.{ResponseCode}
use rust_dns_server.Rdata
use rust_dns_server.Rdata.{RData}
use rust_dns_server.Record.{DnsRecord}
use rust_dns_server.Message.{DnsMessage}
use rust_dns_server.Cache.{CacheEntry, CacheKey}
use rust_dns_server.Cache.Lru.{LruCache}
use rust_dns_server.Dnssec.{ValidationResult, secure, insecure, bogus, indeterminate, of_type}
use rust_dns_server.Dnssec.Ring.{Crypto}
use rust_dns_server.Action.{Action, Attempt, success, error, pure, fail}
use rust_dns_server.Action.Keeps.{
  Runs, Runs-pure, Runs-fail, Runs-give_up, Runs-bind, Runs-attempt, Runs-if, Succeeds,
}
use rust_dns_server.Dnssec.Clock.{validate_response-Safe}
use rust_dns_server.Resolver.Environment.{SocketAddr, World, Network}
use rust_dns_server.Resolver.Recursive.{
  Next, finish, again, Resolve, root_servers, refuse_bogus, validate, use_answers, collect_name,
  collect_names, collect_address, collect_glue, found_or, on_resolved, on_cached, server_addresses,
  go_on, next_servers, on_names, on_referral, on_answers, on_response, round, resolve_loop,
  resolve_recursive, any_name, names_eq, is_name_error,
}
use rust_dns_server.Resolver.Safety.{
  Hosts, IsSafe, AreAnswers, AreFound, cache_lookup-Gives, cache_insert-IsSafe,
}
use rust_dns_server.Resolver.Safety.Fits.{own-Fits, of_type-Fits, cnames_of-Fits, fitting-Answers}
use rust_dns_server.Resolver.Safety.Query.{query_nameservers-Safe}
use rust_dns_server.Resolver.Safety.Chain.{follow_cname_chain-Safe}

module _ ⦃t : TextLib⦄ (lru : LruCache CacheKey CacheEntry) (crypto : Crypto) (enable_dnssec : Bool)
    {Env : Type 0} (net : Network (World lru Env)) {P : World lru Env → Type 0} {may_panic : Type 0}
    {Fits : RecordType → DnsRecord → Type 0} (hosts : Hosts lru net P may_panic Fits) where
  abbrev Safe : {A : Type 0} → Action (World lru Env) A → Type 0
  Safe = IsSafe lru net hosts

  abbrev Answers : RecordType → List DnsRecord → Type 0
  Answers = AreAnswers lru net hosts

  -- A round that ends the loop has answers for it, and one that goes on has a server to ask.
  abbrev Proceeds : RecordType → Next → Type 0
  Proceeds record_type (finish records) = Answers record_type records
  Proceeds record_type (again servers names) = length servers ≢ 0

  abbrev Serves : RecordType → Action (World lru Env) Next → Type 0
  Serves record_type = Runs P may_panic (Proceeds record_type)

  refuse_bogus-Safe : (v : ValidationResult) → Safe (refuse_bogus v)
  unfolding refuse_bogus
  refuse_bogus-Safe bogus = Runs-fail _
  refuse_bogus-Safe secure = Runs-pure tt tt
  refuse_bogus-Safe insecure = Runs-pure tt tt
  refuse_bogus-Safe indeterminate = Runs-pure tt tt

  validate-Safe : (response : DnsMessage) → Safe (validate lru crypto enable_dnssec net response)
  unfolding validate
  validate-Safe response =
      Runs-if enable_dnssec _ _
        (λ _.
          Runs-bind {Q = λ _. Unit {0}} _ _
            (validate_response-Safe crypto net.seconds hosts.seconds hosts.clock_reads _)
            λ v _. refuse_bogus-Safe v)
        (λ _. Runs-pure tt tt)

  collect_name-Safe :
      (r : DnsRecord) (d : RData) (names : List DnsName)
      → Fits RecordType.ns r
      → Safe (collect_name lru crypto enable_dnssec net r d names)
  unfolding collect_name
  collect_name-Safe r (Rdata.ns n) names fits =
      Runs-bind {Q = λ _. Unit {0}} _ _ (cache_insert-IsSafe lru net hosts _ _ _ (fits, tt))
        λ _ _. Runs-pure _ tt
  collect_name-Safe r _ names fits = Runs-pure names tt

  collect_names-Safe :
      (rs : List DnsRecord) (names : List DnsName)
      → Safe (collect_names lru crypto enable_dnssec net rs names)
  unfolding collect_names
  collect_names-Safe [] names = Runs-pure names tt
  collect_names-Safe (r ∷ rs) names =
      Runs-bind {Q = λ _. Unit {0}} _ _
        (Runs-if (type_eq r.record_type RecordType.ns) _ _
          (λ e. collect_name-Safe r r.rdata names (own-Fits lru net hosts r RecordType.ns e))
          (λ _. Runs-pure names tt))
        λ names' _. collect_names-Safe rs names'

  collect_address-Safe :
      (names : List DnsName) (r : DnsRecord) (d : RData) (addrs : List SocketAddr)
      → Fits RecordType.a r
      → Safe (collect_address lru crypto enable_dnssec net names r d addrs)
  unfolding collect_address
  collect_address-Safe names r (Rdata.a ip) addrs fits =
      Runs-if (any_name r.name names) _ _
        (λ _.
          Runs-bind {Q = λ _. Unit {0}} _ _ (cache_insert-IsSafe lru net hosts _ _ _ (fits, tt))
            λ _ _. Runs-pure _ tt)
        (λ _. Runs-pure addrs tt)
  collect_address-Safe names r _ addrs fits = Runs-pure addrs tt

  collect_glue-Safe :
      (names : List DnsName) (rs : List DnsRecord) (addrs : List SocketAddr)
      → Safe (collect_glue lru crypto enable_dnssec net names rs addrs)
  unfolding collect_glue
  collect_glue-Safe names [] addrs = Runs-pure addrs tt
  collect_glue-Safe names (r ∷ rs) addrs =
      Runs-bind {Q = λ _. Unit {0}} _ _
        (Runs-if (type_eq r.record_type RecordType.a) _ _
          (λ e.
            collect_address-Safe names r r.rdata addrs (own-Fits lru net hosts r RecordType.a e))
          (λ _. Runs-pure addrs tt))
        λ addrs' _. collect_glue-Safe names rs addrs'

  module _ (rec : Resolve lru crypto enable_dnssec net)
      (inner : (name : DnsName) (record_type : RecordType)
        → Runs P may_panic (Answers record_type) (rec name record_type)) where
    use_answers-Safe :
        (name : DnsName) (record_type : RecordType) (result cnames : List DnsRecord)
        → All (Fits record_type) result
        → All (Fits RecordType.cname) cnames
        → Runs P may_panic
            (Answers record_type)
            (use_answers lru crypto enable_dnssec net rec name record_type result cnames)
    unfolding use_answers
    use_answers-Safe name record_type (r ∷ rs) cnames h k =
        Runs-bind {Q = λ _. Unit {0}} _ _ (cache_insert-IsSafe lru net hosts _ _ _ h)
          λ _ _. Runs-pure _ (fitting-Answers lru net hosts record_type (r ∷ rs) h)
    use_answers-Safe name record_type [] (c ∷ cs) h k =
        Runs-bind {Q = λ _. Unit {0}} _ _ (cache_insert-IsSafe lru net hosts _ _ _ k)
          λ _ _. follow_cname_chain-Safe Fits rec inner (c ∷ cs) record_type k
    use_answers-Safe name record_type [] [] h k = Runs-pure [] tt

    found_or-Safe :
        (next : Action (World lru Env) (List SocketAddr)) (addrs : List SocketAddr)
        → Safe next
        → Safe (found_or lru crypto enable_dnssec net next addrs)
    unfolding found_or
    found_or-Safe next [] k = k
    found_or-Safe next (addr ∷ addrs) k = Runs-pure _ tt

    on_resolved-Safe :
        (next : Action (World lru Env) (List SocketAddr)) (r : Attempt (List DnsRecord))
        → Safe next
        → Safe (on_resolved lru crypto enable_dnssec net next r)
    unfolding on_resolved
    on_resolved-Safe next (success rs) k = found_or-Safe next _ k
    on_resolved-Safe next (error code) k = k

    on_cached-Safe :
        (ns_name : DnsName) (next : Action (World lru Env) (List SocketAddr))
        (o : Option (List DnsRecord))
        → Safe next
        → Safe (on_cached lru crypto enable_dnssec net rec ns_name next o)
    unfolding on_cached
    on_cached-Safe ns_name next (some cached) k = found_or-Safe next _ k
    on_cached-Safe ns_name next none k =
        Runs-bind {Q = Succeeds (Answers RecordType.a)} _ _
          (Runs-attempt _ (inner ns_name RecordType.a)) λ r _. on_resolved-Safe next r k

    server_addresses-Safe :
        (names : List DnsName) → Safe (server_addresses lru crypto enable_dnssec net rec names)
    unfolding server_addresses
    server_addresses-Safe [] = Runs-pure [] tt
    server_addresses-Safe (n ∷ names) =
        Runs-bind {Q = AreFound lru net hosts RecordType.a} _ _
          (cache_lookup-Gives lru net hosts n RecordType.a)
          λ o _. on_cached-Safe n _ o (server_addresses-Safe names)

    go_on-Serves :
        (record_type : RecordType) (names : List DnsName) (addrs : List SocketAddr)
        → Serves record_type (go_on lru crypto enable_dnssec net names addrs)
    unfolding go_on
    go_on-Serves record_type names [] = Runs-fail _
    go_on-Serves record_type names (addr ∷ addrs) = Runs-pure _ (λ e. absurd (omega arith))

    next_servers-Serves :
        (record_type : RecordType) (names : List DnsName) (glue : List SocketAddr)
        → Serves record_type (next_servers lru crypto enable_dnssec net rec names glue)
    unfolding next_servers
    next_servers-Serves record_type names (addr ∷ addrs) = Runs-pure _ (λ e. absurd (omega arith))
    next_servers-Serves record_type names [] =
        Runs-bind {Q = λ _. Unit {0}} _ _ (server_addresses-Safe names)
          λ addrs _. go_on-Serves record_type names addrs

    no_referral-Serves :
        (record_type : RecordType) (soas : List DnsRecord)
        → Serves record_type
            (elim soas [ [] ↦ fail ResponseCode.server_failure | _ ∷ _ ↦ pure (finish []) ])
    no_referral-Serves record_type [] = Runs-fail _
    no_referral-Serves record_type (r ∷ rs) = Runs-pure _ tt

    on_names-Serves :
        (record_type : RecordType) (last : List DnsName) (response : DnsMessage)
        (names : List DnsName) (glue : List SocketAddr)
        → Serves record_type (on_names lru crypto enable_dnssec net rec last response names glue)
    unfolding on_names
    on_names-Serves record_type last response [] glue =
        no_referral-Serves record_type (of_type RecordType.soa response.authorities)
    on_names-Serves record_type last response (n ∷ names) glue =
        Runs-if (names_eq (n ∷ names) last) _ _ (λ _. Runs-fail _)
          (λ _. next_servers-Serves record_type (n ∷ names) glue)

    on_response-Serves :
        (name : DnsName) (record_type : RecordType) (last : List DnsName) (response : DnsMessage)
        (answers : List DnsRecord)
        → Serves record_type
            (on_response lru crypto enable_dnssec net rec name record_type last response answers)
    unfolding on_response on_referral on_answers
    on_response-Serves name record_type last response [] =
        Runs-bind {Q = λ _. Unit {0}} _ _ (collect_names-Safe response.authorities []) λ names _.
          Runs-bind {Q = λ _. Unit {0}} _ _ (collect_glue-Safe names response.additional [])
            λ glue _. on_names-Serves record_type last response names glue
    on_response-Serves name record_type last response (r ∷ rs) =
        Runs-bind {Q = λ _. Unit {0}} _ _ (validate-Safe response) λ _ _.
          Runs-bind {Q = Answers record_type} _ _
            (use_answers-Safe name record_type _ _
              (of_type-Fits lru net hosts record_type response.answers)
              (cnames_of-Fits lru net hosts record_type response.answers))
            λ records answers. Runs-pure _ answers

    round-Serves :
        (name : DnsName) (record_type : RecordType) (servers : List SocketAddr)
        (last : List DnsName)
        → length servers ≢ 0
        → Serves record_type (round lru crypto enable_dnssec net rec name record_type servers last)
    unfolding round
    round-Serves name record_type servers last some_server =
        Runs-bind {Q = λ _. Unit {0}} _ _
          (query_nameservers-Safe lru net hosts enable_dnssec name record_type servers some_server)
          λ response _.
            Runs-if (is_name_error response.header.response_code) _ _ (λ _. Runs-fail _)
              (λ _. on_response-Serves name record_type last response response.answers)

    resolve_loop-Safe :
        (rounds : ℕ) (name : DnsName) (record_type : RecordType) (servers : List SocketAddr)
        (last : List DnsName)
        → length servers ≢ 0
        → Runs P may_panic
            (Answers record_type)
            (resolve_loop lru crypto enable_dnssec net rounds rec name record_type servers last)
    unfolding resolve_loop
    resolve_loop-Safe zero name record_type servers last some_server = Runs-give_up
    resolve_loop-Safe (suc rounds) name record_type servers last some_server =
        Runs-bind {Q = Proceeds record_type} _ _
          (round-Serves name record_type servers last some_server)
          (elim [
            | finish records ↦ λ answers. Runs-pure records answers
            | again next names ↦
                λ has_server. resolve_loop-Safe rounds name record_type next names has_server
          ])

  pub resolve_recursive-Safe :
      (rounds depth_left : ℕ) (name : DnsName) (record_type : RecordType)
      → Runs P may_panic
          (Answers record_type)
          (resolve_recursive lru crypto enable_dnssec net rounds depth_left name record_type)
  unfolding resolve_recursive
  resolve_recursive-Safe rounds zero name record_type = Runs-fail _
  resolve_recursive-Safe rounds (suc depth_left) name record_type =
      resolve_loop-Safe (resolve_recursive lru crypto enable_dnssec net rounds depth_left)
        (λ n ty. resolve_recursive-Safe rounds depth_left n ty) rounds name record_type root_servers
        [] (λ e. absurd (omega arith))
