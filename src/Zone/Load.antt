-- ===== src/Zone/Load.antt =====
-- `Zone::from_config`: what a lookup in the loaded zone answers, in terms of the configured records.
use mathlib.Core.Path.{subst}
use rust_dns_server.Base.{
  ℕ, ◌≡◌, refl, sym, ◌∙◌, Bool, false, ◌&&◌, Option, none, some, List, [], ◌∷◌, ◌++◌, arith,
  if◌then◌else◌, append_assoc, append-nil, Bool-cases, inl, inr, not, ◌⊎◌, and_left,
}
use rust_dns_server.Text.{Text, TextLib, ascii}
use rust_dns_server.Error.{Result, ok, err, ◌>>=◌}
use rust_dns_server.Name
use rust_dns_server.Name.{DnsName, name_eq}
use rust_dns_server.Codes.RecordType.{RecordType, type_eq, type_eq→eq}
use rust_dns_server.Record
use rust_dns_server.Record.{DnsRecord}
use rust_dns_server.Zone.{
  Zone, ZoneDefinition, RecordConfig, Table, AddrLib, name_or, key_eq, get, push, convert,
  load_records, from_config, is_empty, zone_lookup,
}
use rust_dns_server.Zone.Table.{select, key_of, has_key, extend, extend-push}

abbrev pub is_ns : DnsRecord → Bool
is_ns r = type_eq r.record_type RecordType.ns

pub >>=-eq-ok :
    {A B : Type 0} (m : Result A) (next : A → Result B) {b : B}
    → (m >>= next) ≡ ok b
    → (v : A) × (m ≡ ok v) × (next v ≡ ok b)
>>=-eq-ok (err reason) next h = absurd (cc)
>>=-eq-ok (ok v) next h = (v, refl, h)

ok_eq : {A : Type 0} {a b : A} → ok a ≡ ok b → a ≡ b
ok_eq h = cc

and_false : (b : Bool) → (b && false) ≡ false
and_false b = ground arith

empty_cases :
    (rs : List DnsRecord)
    → (rs ≡ []) ⊎ ((r : DnsRecord) × (rest : List DnsRecord) × (rs ≡ r ∷ rest))
empty_cases [] = inl refl
empty_cases (r ∷ rest) = inr (r, rest, refl)

-- `none` for no records.
abbrev pub nonempty : List DnsRecord → Option (List DnsRecord)
nonempty [] = none
nonempty (r ∷ rs) = some (r ∷ rs)

module _ ⦃t : TextLib⦄ ⦃addr : AddrLib⦄ where
  -- The configured records one by one, with no table.
  unfoldable pub convert_all : DnsName → Text → ℕ → List RecordConfig → Result (List DnsRecord)
  convert_all zone_name def_name default_ttl [] = ok []
  convert_all zone_name def_name default_ttl (rec ∷ recs) = do
    r ← convert zone_name def_name default_ttl rec
    rs ← convert_all zone_name def_name default_ttl recs
    ok (r ∷ rs)

  -- The table and the NS list hold the converted records.
  pub record Holds (table : Table) (ns : List DnsRecord) (rs : List DnsRecord)
      (out : Table × List DnsRecord) : Type 0 where
    pub in_table :
        (k : DnsName × RecordType) → get k out.0 ≡ extend (get k table) (select (has_key k) rs)
    pub in_ns : out.1 ≡ ns ++ select is_ns rs

  nil-Holds : (table : Table) (ns : List DnsRecord) → Holds table ns [] (table, ns)
  unfolding select
  nil-Holds table ns = record { in_table = λ k. refl; in_ns = sym (append-nil ns) }

  push-Holds :
      (table : Table) (ns : List DnsRecord) (r : DnsRecord) (rs : List DnsRecord)
      (out : Table × List DnsRecord)
      → Holds (push (key_of r) r table) (if is_ns r then ns ++ (r ∷ []) else ns) rs out
      → Holds table ns (r ∷ rs) out
  unfolding select
  push-Holds table ns r rs out h = record {
    in_table = λ k. h.in_table k ∙ extend-push k r rs table;
    in_ns = elim (Bool-cases (is_ns r)) [
      | inl yes_ns ↦ h.in_ns ∙ rw yes_ns (append_assoc ns (r ∷ []) (select is_ns rs))
      | inr no_ns ↦ h.in_ns ∙ rw no_ns
    ];
  }

  load_records-Holds :
      (zone_name : DnsName) (def_name : Text) (ttl : ℕ) (recs : List RecordConfig) (table : Table)
      (ns : List DnsRecord) (out : Table × List DnsRecord)
      → load_records zone_name def_name ttl recs table ns ≡ ok out
      → (rs : List DnsRecord) × (convert_all zone_name def_name ttl recs ≡ ok rs)
        × Holds table ns rs out
  unfolding load_records convert_all
  load_records-Holds zone_name def_name ttl [] table ns out h =
      ([], refl, subst (Holds table ns []) (ok_eq h) (nil-Holds table ns))
  load_records-Holds zone_name def_name ttl (rec ∷ recs) table ns out h =
      let (r, e, f) = >>=-eq-ok (convert zone_name def_name ttl rec) _ h in
      let (rs, all, held) =
        load_records-Holds zone_name def_name ttl recs (push (key_of r) r table)
          (if is_ns r then ns ++ (r ∷ []) else ns) out f in
      (r ∷ rs, rw (e, all), push-Holds table ns r rs out held)

  -- What a zone with this name, SOA record and records answers.
  unfoldable pub answer :
      DnsName → DnsRecord → List DnsRecord → DnsName → RecordType → Option (List DnsRecord)
  answer apex soa rs n rtype =
      if type_eq rtype RecordType.soa && name_eq n apex
      then some (soa ∷ [])
      else if type_eq rtype RecordType.ns && name_eq n apex
      then nonempty (select is_ns rs)
      else nonempty (select (has_key (n, rtype)) rs)

  extend-none : (rs : List DnsRecord) → extend none rs ≡ nonempty rs
  extend-none [] = refl
  extend-none (r ∷ rs) = refl

  select_none :
      (n : DnsName) (rs : List DnsRecord)
      → select is_ns rs ≡ []
      → select (has_key (n, RecordType.ns)) rs ≡ []
  unfolding select key_eq
  select_none n [] h = refl
  select_none n (r ∷ rs) h = elim (Bool-cases (is_ns r)) [
    | inl yes_ns ↦ absurd (cc (rw yes_ns at h))
    | inr no_ns ↦ rw (no_ns, and_false (name_eq r.name n)) (select_none n rs (rw no_ns at h))
  ]

  ns_first :
      (n : DnsName) (rs : List DnsRecord)
      → (if not (is_empty (select is_ns rs))
          then some (select is_ns rs)
          else nonempty (select (has_key (n, RecordType.ns)) rs))
        ≡ nonempty (select is_ns rs)
  unfolding is_empty
  ns_first n rs = elim (empty_cases (select is_ns rs)) [
    | inl e ↦ rw (e, select_none n rs e)
    | inr (r, rest, e) ↦ rw e
  ]

  -- A loaded zone against its configuration.
  pub record Loaded (def : ZoneDefinition) (z : Zone) : Type 0 where
    pub entries : List DnsRecord
    pub named_zone : name_or (ascii "Invalid zone name: ") (Name.new def.name) ≡ ok z.name
    pub converted : convert_all z.name def.name def.soa.minimum def.records ≡ ok entries
    pub found : (k : DnsName × RecordType) → get k z.records ≡ nonempty (select (has_key k) entries)
    pub ns_found : z.ns_records ≡ select is_ns entries
    pub soa_type : z.soa.record_type ≡ RecordType.soa

  pub from_config-Loaded : (def : ZoneDefinition) (z : Zone) → from_config def ≡ ok z → Loaded def z
  unfolding from_config get Record.new
  from_config-Loaded def z h =
      let (zone_name, e0, f0) =
        >>=-eq-ok (name_or (ascii "Invalid zone name: ") (Name.new def.name)) _ h in
      let (mname, e1, f1) = >>=-eq-ok (name_or [] (Name.new def.soa.mname)) _ f0 in
      let (rname, e2, f2) = >>=-eq-ok (name_or [] (Name.new def.soa.rname)) _ f1 in
      let (out, e3, f3) =
        >>=-eq-ok (load_records zone_name def.name def.soa.minimum def.records [] []) _ f2 in
      let (rs, all, held) =
        load_records-Holds zone_name def.name def.soa.minimum def.records [] [] out e3 in
      subst (Loaded def) (ok_eq f3) (record {
        entries = rs;
        named_zone = e0;
        converted = all;
        found = λ k. held.in_table k ∙ extend-none (select (has_key k) rs);
        ns_found = held.in_ns;
        soa_type = refl;
      })

  -- Asking an empty NS list first makes no difference at the apex.
  answer-eq :
      (def : ZoneDefinition) (z : Zone) (n : DnsName) (rtype : RecordType) (l : Loaded def z)
      → zone_lookup z n rtype ≡ answer z.name z.soa l.entries n rtype
  unfolding zone_lookup answer
  answer-eq def z n rtype l = elim (Bool-cases (type_eq rtype RecordType.soa && name_eq n z.name)) [
    | inl apex_soa ↦ rw apex_soa
    | inr e ↦ rw e (elim (Bool-cases (type_eq rtype RecordType.ns && name_eq n z.name)) [
      | inl apex_ns ↦
          let is_type =
            type_eq→eq rtype RecordType.ns
              (and_left (type_eq rtype RecordType.ns) (name_eq n z.name) apex_ns) in
          rw (apex_ns, l.ns_found, is_type, l.found) (ns_first n l.entries)
      | inr other ↦ rw (other, l.found)
    ])
  ]

  -- A lookup in a zone from a configuration answers from the configured records alone: the SOA record
  -- at the apex, all NS records of the zone for NS at the apex, and else the records of the name
  -- and type in the order of the configuration, or nothing if there are none.
  pub zone_lookup-from_config :
      (def : ZoneDefinition) (z : Zone) (n : DnsName) (rtype : RecordType)
      → from_config def ≡ ok z
      → (rs : List DnsRecord) × (convert_all z.name def.name def.soa.minimum def.records ≡ ok rs)
        × (zone_lookup z n rtype ≡ answer z.name z.soa rs n rtype)
  zone_lookup-from_config def z n rtype h =
      let l = from_config-Loaded def z h in (l.entries, l.converted, answer-eq def z n rtype l)
