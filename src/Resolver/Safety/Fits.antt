-- ===== src/Resolver/Safety/Fits.antt =====
-- What `resolve_recursive` picks out of a response fits the type that it is picked for.
use mathlib.Core.Path.{subst}
use rust_dns_server.Base.{◌≡◌, inl, inr, true, not, ◌&&◌, List, [], ◌∷◌, All, Bool-cases, and_right}
use rust_dns_server.Text.{TextLib}
use rust_dns_server.Codes.RecordType.{RecordType, type_eq, type_eq→eq}
use rust_dns_server.Record.{DnsRecord}
use rust_dns_server.Cache.{CacheEntry, CacheKey}
use rust_dns_server.Cache.Lru.{LruCache}
use rust_dns_server.Dnssec.{of_type}
use rust_dns_server.Resolver.Environment.{World, Network}
use rust_dns_server.Resolver.Recursive.{cnames_of}
use rust_dns_server.Resolver.Safety.{Hosts, AreAnswers}

module _ ⦃t : TextLib⦄ (lru : LruCache CacheKey CacheEntry) {Env : Type 0}
    (net : Network (World lru Env)) {P : World lru Env → Type 0} {may_panic : Type 0}
    {Fits : RecordType → DnsRecord → Type 0} (hosts : Hosts lru net P may_panic Fits) where
  abbrev Answers : RecordType → List DnsRecord → Type 0
  Answers = AreAnswers lru net hosts

  pub own-Fits :
      (r : DnsRecord) (record_type : RecordType)
      → type_eq r.record_type record_type ≡ true
      → Fits record_type r
  own-Fits r record_type e = subst (λ ty. Fits ty r) (type_eq→eq _ _ e) (hosts.own_type r)

  pub of_type-Fits :
      (record_type : RecordType) (rs : List DnsRecord)
      → All (Fits record_type) (of_type record_type rs)
  unfolding of_type
  of_type-Fits record_type [] = tt
  of_type-Fits record_type (r ∷ rs) = elim (Bool-cases (type_eq r.record_type record_type)) [
    | inl mine ↦ rw mine (own-Fits r record_type mine, of_type-Fits record_type rs)
    | inr other ↦ rw other (of_type-Fits record_type rs)
  ]

  pub cnames_of-Fits :
      (record_type : RecordType) (rs : List DnsRecord)
      → All (Fits RecordType.cname) (cnames_of record_type rs)
  unfolding cnames_of
  cnames_of-Fits record_type [] = tt
  cnames_of-Fits record_type (r ∷ rs) =
      let alias =
        not (type_eq r.record_type record_type) && type_eq r.record_type RecordType.cname in
      elim (Bool-cases alias) [
        | inl yes_alias ↦ rw yes_alias (
          own-Fits r RecordType.cname (
              and_right (not (type_eq r.record_type record_type))
                (type_eq r.record_type RecordType.cname) yes_alias),
          cnames_of-Fits record_type rs,
        )
        | inr other ↦ rw other (cnames_of-Fits record_type rs)
      ]

  pub fitting-Answers :
      (record_type : RecordType) (rs : List DnsRecord)
      → All (Fits record_type) rs
      → Answers record_type rs
  fitting-Answers record_type [] h = tt
  fitting-Answers record_type (r ∷ rs) h = (inl h.0, fitting-Answers record_type rs h.1)
