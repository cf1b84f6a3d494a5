-- ===== src/Zone/Types.antt =====
-- The answers of a zone from a configuration have the type that was asked for.
use mathlib.Core.Path.{subst}
use rust_dns_server.Base.{
  some_eq, ◌≡◌, sym, ◌∙◌, Bool, true, ◌&&◌, some, List, [], ◌∷◌, All, Bool-cases, inl, inr,
  and_left, and_right,
}
use rust_dns_server.Text.{TextLib}
use rust_dns_server.Error.{ok}
use rust_dns_server.Name.{DnsName, name_eq}
use rust_dns_server.Codes.RecordType.{RecordType, type_eq, type_eq→eq}
use rust_dns_server.Record.{DnsRecord}
use rust_dns_server.Cache.Typed.{HasType}
use rust_dns_server.Zone.{Zone, ZoneDefinition, AddrLib, from_config, zone_lookup, key_eq}
use rust_dns_server.Zone.Table.{select, has_key}
use rust_dns_server.Zone.Load.{nonempty, is_ns, answer, from_config-Loaded, zone_lookup-from_config}

nonempty_eq : (rs found : List DnsRecord) → nonempty rs ≡ some found → rs ≡ found
nonempty_eq [] found h = absurd (cc)
nonempty_eq (r ∷ rs) found h = some_eq h

select-HasType :
    (test : DnsRecord → Bool) (record_type : RecordType) (rs : List DnsRecord)
    → ((r : DnsRecord) → test r ≡ true → HasType record_type r)
    → All (HasType record_type) (select test rs)
unfolding select
select-HasType test record_type [] h = tt
select-HasType test record_type (r ∷ rs) h = elim (Bool-cases (test r)) [
  | inl in_it ↦ rw in_it (h r in_it, select-HasType test record_type rs h)
  | inr out ↦ rw out (select-HasType test record_type rs h)
]

has_key-HasType :
    (n : DnsName) (record_type : RecordType) (r : DnsRecord)
    → has_key (n, record_type) r ≡ true
    → HasType record_type r
unfolding key_eq
has_key-HasType n record_type r h =
    type_eq→eq _ _ (and_right (name_eq r.name n) (type_eq r.record_type record_type) h)

module _ ⦃t : TextLib⦄ ⦃addr : AddrLib⦄ where
  answer-HasType :
      (apex : DnsName) (soa : DnsRecord) (rs : List DnsRecord) (n : DnsName)
      (record_type : RecordType) (found : List DnsRecord)
      → HasType RecordType.soa soa
      → answer apex soa rs n record_type ≡ some found
      → All (HasType record_type) found
  unfolding answer
  answer-HasType apex soa rs n record_type found typed h =
      elim (Bool-cases (type_eq record_type RecordType.soa && name_eq n apex)) [
        | inl start ↦
            let is_soa =
              type_eq→eq record_type RecordType.soa
                (and_left (type_eq record_type RecordType.soa) (name_eq n apex) start) in
            subst (All (HasType record_type)) (some_eq (rw start at h)) (typed ∙ sym is_soa, tt)
        | inr e ↦ elim (Bool-cases (type_eq record_type RecordType.ns && name_eq n apex)) [
          | inl delegated ↦
              let is_ns_type =
                type_eq→eq record_type RecordType.ns
                  (and_left (type_eq record_type RecordType.ns) (name_eq n apex) delegated) in
              subst (All (HasType record_type)) (nonempty_eq _ found (rw (e, delegated) at h))
                (select-HasType is_ns record_type rs λ r t. type_eq→eq _ _ t ∙ sym is_ns_type)
          | inr plain ↦
              subst (All (HasType record_type)) (nonempty_eq _ found (rw (e, plain) at h)) (
                select-HasType (has_key (n, record_type)) record_type rs
                  (has_key-HasType n record_type))
        ]
      ]

  -- What a lookup in a zone from a configuration finds has the type that was asked for.
  pub zone_lookup-HasType :
      (def : ZoneDefinition) (z : Zone) (n : DnsName) (record_type : RecordType)
      (found : List DnsRecord)
      → from_config def ≡ ok z
      → zone_lookup z n record_type ≡ some found
      → All (HasType record_type) found
  zone_lookup-HasType def z n record_type found h k =
      let (rs, all, e) = zone_lookup-from_config def z n record_type h in
      answer-HasType z.name z.soa rs n record_type found (from_config-Loaded def z h).soa_type
        (sym e ∙ k)
