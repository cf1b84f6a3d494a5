-- ===== src/Resolver/Recursive.antt =====
-- `Resolver::resolve_recursive` of src/resolver/mod.rs.
use rust_dns_server.Base.{
  ℕ, zero, suc, Bool, true, false, not, ◌&&◌, Option, none, some, List, [], ◌∷◌, ◌++◌, map,
  if◌then◌else◌,
}
use rust_dns_server.Text.{TextLib}
use rust_dns_server.Name.{DnsName, name_eq}
use rust_dns_server.Codes.RecordType.{RecordType, type_eq}
use rust_dns_server.Codes.ResponseCode.{ResponseCode}
use rust_dns_server.Rdata.{RData, Ipv4Addr, a, ns}
use rust_dns_server.Record.{DnsRecord}
use rust_dns_server.Message.{DnsMessage}
use rust_dns_server.Cache.{CacheEntry, CacheKey}
use rust_dns_server.Cache.Lru.{LruCache}
use rust_dns_server.Dnssec.{ValidationResult, bogus, of_type, validate_response}
use rust_dns_server.Dnssec.Ring.{Crypto}
use rust_dns_server.Action.{
  Action, Attempt, success, error, pure, fail, give_up, attempt, ◌>>=◌, ◌>>◌,
}
use rust_dns_server.Resolver.Environment.{SocketAddr, World, Network, cache_lookup, cache_insert}
use rust_dns_server.Resolver.Query.{query_nameservers}
use rust_dns_server.Resolver.Chain.{follow_cname_chain}

-- `SocketAddr::new(addr.into(), 53)`
abbrev pub at_port_53 : Ipv4Addr → SocketAddr
at_port_53 ip = record { ip = ip; port = 53 }

abbrev ipv4 : (octet0 octet1 octet2 octet3 : ℕ) → Ipv4Addr
ipv4 w x y z = record { octet0 = w; octet1 = x; octet2 = y; octet3 = z }

-- `ROOT_SERVERS`, with their addresses parsed.
abbrev pub root_servers : List SocketAddr
root_servers = map at_port_53 (
    ipv4 198 41 0 4
    ∷ ipv4 170 247 170 2
    ∷ ipv4 192 33 4 12
    ∷ ipv4 199 7 91 13
    ∷ ipv4 192 203 230 10
    ∷ ipv4 192 5 5 241
    ∷ ipv4 192 112 36 4
    ∷ ipv4 198 97 190 53
    ∷ ipv4 192 36 148 17
    ∷ ipv4 192 58 128 30
    ∷ ipv4 193 0 14 129
    ∷ ipv4 199 7 83 42
    ∷ ipv4 202 12 27 33
    ∷ [])

unfoldable pub is_name_error : ResponseCode → Bool
is_name_error ResponseCode.name_error = true
is_name_error _ = false

-- The `else if` branch of the loop over the answers.
unfoldable pub cnames_of : RecordType → List DnsRecord → List DnsRecord
cnames_of record_type [] = []
cnames_of record_type (r ∷ rs) =
    let rest = cnames_of record_type rs in
    if not (type_eq r.record_type record_type) && type_eq r.record_type RecordType.cname
    then r ∷ rest
    else rest

unfoldable pub any_name : DnsName → List DnsName → Bool
any_name name [] = false
any_name name (n ∷ names) = if name_eq n name then true else any_name name names

unfoldable pub names_eq : List DnsName → List DnsName → Bool
names_eq [] [] = true
names_eq (m ∷ ms) (n ∷ names) = name_eq m n && names_eq ms names
names_eq _ _ = false

-- `if let RData::A(addr) = r.rdata`
unfoldable pub address_of : RData → List SocketAddr
address_of (a ip) = at_port_53 ip ∷ []
address_of _ = []

unfoldable pub addresses_of : List DnsRecord → List SocketAddr
addresses_of [] = []
addresses_of (r ∷ rs) = address_of r.rdata ++ addresses_of rs

-- What one round of the loop ends with: `return`, or the servers and names for the next round.
pub data Next : Type 0 where
  finish : List DnsRecord → Next
  again : List SocketAddr → List DnsName → Next

unfoldable pub refuse_bogus : {W : Type 0} → ValidationResult → Action W (Unit {0})
refuse_bogus bogus = fail ResponseCode.server_failure
refuse_bogus _ = pure tt

module _ ⦃t : TextLib⦄ (lru : LruCache CacheKey CacheEntry) (crypto : Crypto) (enable_dnssec : Bool)
    {Env : Type 0} (net : Network (World lru Env)) where
  abbrev pub Step : Type 0 → Type 0
  Step = Action (World lru Env)

  abbrev pub Resolve : Type 0
  Resolve = DnsName → RecordType → Step (List DnsRecord)

  -- The DNSSEC validation of all three sections.
  unfoldable pub validate : DnsMessage → Step (Unit {0})
  validate response =
      if enable_dnssec
      then (validate_response crypto net.seconds
            (response.answers ++ (response.authorities ++ response.additional))
          >>= refuse_bogus)
      else pure tt

  -- A response with answers: `result`, then `cnames`.
  unfoldable pub use_answers :
      Resolve → DnsName → RecordType → List DnsRecord → List DnsRecord → Step (List DnsRecord)
  use_answers rec name record_type (r ∷ rs) cnames =
      cache_insert lru net name record_type (r ∷ rs) >> pure (r ∷ rs)
  use_answers rec name record_type [] (c ∷ cs) =
      cache_insert lru net name RecordType.cname (c ∷ cs)
      >> follow_cname_chain rec (c ∷ cs) record_type
  use_answers rec name record_type [] [] = pure []

  -- The loop over the authority section, with `new_ns_names`.
  unfoldable pub collect_name : DnsRecord → RData → List DnsName → Step (List DnsName)
  collect_name r (ns ns_name) names =
      cache_insert lru net r.name RecordType.ns (r ∷ []) >> pure (names ++ (ns_name ∷ []))
  collect_name r _ names = pure names

  unfoldable pub collect_names : List DnsRecord → List DnsName → Step (List DnsName)
  collect_names [] names = pure names
  collect_names (r ∷ rs) names =
      (if type_eq r.record_type RecordType.ns then collect_name r r.rdata names else pure names)
      >>= collect_names rs

  -- The loop over the additional section, with `glue_addrs`.
  unfoldable pub collect_address :
      List DnsName → DnsRecord → RData → List SocketAddr → Step (List SocketAddr)
  collect_address names r (a ip) addrs =
      if any_name r.name names
      then (cache_insert lru net r.name RecordType.a (r ∷ [])
          >> pure (addrs ++ (at_port_53 ip ∷ [])))
      else pure addrs
  collect_address names r _ addrs = pure addrs

  unfoldable pub collect_glue :
      List DnsName → List DnsRecord → List SocketAddr → Step (List SocketAddr)
  collect_glue names [] addrs = pure addrs
  collect_glue names (r ∷ rs) addrs =
      (if type_eq r.record_type RecordType.a
        then collect_address names r r.rdata addrs
        else pure addrs)
      >>= collect_glue names rs

  -- The loop over `new_ns_names`, with `resolved_addrs`: it goes on as long as there is none.
  unfoldable pub found_or : Step (List SocketAddr) → List SocketAddr → Step (List SocketAddr)
  found_or next [] = next
  found_or next (addr ∷ addrs) = pure (addr ∷ addrs)

  unfoldable pub on_resolved :
      Step (List SocketAddr) → Attempt (List DnsRecord) → Step (List SocketAddr)
  on_resolved next (success records) = found_or next (addresses_of records)
  on_resolved next (error code) = next

  unfoldable pub on_cached :
      Resolve → DnsName → Step (List SocketAddr) → Option (List DnsRecord) → Step (List SocketAddr)
  on_cached rec ns_name next (some cached) = found_or next (addresses_of cached)
  on_cached rec ns_name next none = attempt (rec ns_name RecordType.a) >>= on_resolved next

  unfoldable pub server_addresses : Resolve → List DnsName → Step (List SocketAddr)
  server_addresses rec [] = pure []
  server_addresses rec (ns_name ∷ names) =
      cache_lookup lru net ns_name RecordType.a
      >>= on_cached rec ns_name (server_addresses rec names)

  -- The servers of the next round.
  unfoldable pub go_on : List DnsName → List SocketAddr → Step Next
  go_on names [] = fail ResponseCode.server_failure
  go_on names (addr ∷ addrs) = pure (again (addr ∷ addrs) names)

  unfoldable pub next_servers : Resolve → List DnsName → List SocketAddr → Step Next
  next_servers rec names (addr ∷ addrs) = pure (again (addr ∷ addrs) names)
  next_servers rec names [] = server_addresses rec names >>= go_on names

  unfoldable pub on_names :
      Resolve → List DnsName → DnsMessage → List DnsName → List SocketAddr → Step Next
  on_names rec last_ns_names response [] glue_addrs =
      elim (of_type RecordType.soa response.authorities) [
        | [] ↦ fail ResponseCode.server_failure
        | _ ∷ _ ↦ pure (finish [])
      ]
  on_names rec last_ns_names response (n ∷ names) glue_addrs =
      if names_eq (n ∷ names) last_ns_names
      then fail ResponseCode.server_failure
      else next_servers rec (n ∷ names) glue_addrs

  -- A response without answers.
  unfoldable pub on_referral : Resolve → List DnsName → DnsMessage → Step Next
  on_referral rec last_ns_names response = collect_names response.authorities [] >>= λ names.
      collect_glue names response.additional [] >>= on_names rec last_ns_names response names

  unfoldable pub on_answers : Resolve → DnsName → RecordType → DnsMessage → Step Next
  on_answers rec name record_type response = validate response >>= λ _.
      use_answers rec name record_type (of_type record_type response.answers)
        (cnames_of record_type response.answers)
      >>= λ records. pure (finish records)

  unfoldable pub on_response :
      Resolve → DnsName → RecordType → List DnsName → DnsMessage → List DnsRecord → Step Next
  on_response rec name record_type last_ns_names response [] =
      on_referral rec last_ns_names response
  on_response rec name record_type last_ns_names response (r ∷ rs) =
      on_answers rec name record_type response

  -- One round of the loop.
  unfoldable pub round : Resolve → DnsName → RecordType → List SocketAddr → List DnsName → Step Next
  round rec name record_type nameservers last_ns_names =
      query_nameservers net enable_dnssec name record_type nameservers >>= λ response.
      if is_name_error response.header.response_code
      then fail ResponseCode.name_error
      else on_response rec name record_type last_ns_names response response.answers

  unfoldable pub resolve_loop :
      (rounds : ℕ)
      → Resolve
      → DnsName
      → RecordType
      → List SocketAddr
      → List DnsName
      → Step (List DnsRecord)
  resolve_loop zero rec name record_type nameservers last_ns_names = give_up
  resolve_loop (suc rounds) rec name record_type nameservers last_ns_names =
      round rec name record_type nameservers last_ns_names >>= elim [
        | finish records ↦ pure records
        | again servers names ↦ resolve_loop rounds rec name record_type servers names
      ]

  -- `depth_left` is `33 - depth`: at `depth > MAX_RECURSION_DEPTH` nothing is left.
  unfoldable pub resolve_recursive : (rounds depth_left : ℕ) → Resolve
  resolve_recursive rounds zero name record_type = fail ResponseCode.server_failure
  resolve_recursive rounds (suc depth_left) name record_type =
      resolve_loop rounds (resolve_recursive rounds depth_left) name record_type root_servers []
