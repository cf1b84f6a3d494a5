-- ===== src/Zone.antt =====
-- `Zone` and `ZoneStore` of src/zone/mod.rs: local zones from a configuration, and their lookup.
pub mod Table
pub mod Load
pub mod Find
pub mod Types
pub mod Names
use rust_dns_server.Base.{
  ℕ, Bool, true, false, ◌&&◌, ◌||◌, not, Option, none, some, List, [], ◌∷◌, ◌++◌, ltb,
  if◌then◌else◌, Bytes,
}
use rust_dns_server.Text.{Text, TextLib, ascii}
use rust_dns_server.Error.{DnsError, parse_error, error_text, Result, ok, err, ◌>>=◌}
use rust_dns_server.Name
use rust_dns_server.Name.{
  DnsName, NameResult, named, refused, text_eq, name_eq, dot, is_subdomain_of, label_count,
}
use rust_dns_server.Codes.RecordType
use rust_dns_server.Codes.RecordType.{RecordType, type_eq}
use rust_dns_server.Codes.TypeNames.{from_str_type}
use rust_dns_server.Rdata.{RData, Ipv4Addr, a, aaaa, cname, mx, txt, ns, soa, srv, ptr}
use rust_dns_server.Record
use rust_dns_server.Record.{DnsRecord}

pub record SoaConfig : Type 0 where
  pub mname : Text
  pub rname : Text
  pub serial : ℕ
  pub refresh : ℕ
  pub retry : ℕ
  pub expire : ℕ
  pub minimum : ℕ

pub record RecordConfig : Type 0 where
  pub name : Text
  pub record_type : Text
  pub ttl : Option ℕ
  pub value : Text
  pub priority : Option ℕ
  pub weight : Option ℕ
  pub port : Option ℕ

pub record ZoneDefinition : Type 0 where
  pub name : Text
  pub soa : SoaConfig
  pub records : List RecordConfig

-- `ZoneConfig` is its list of zones.
abbrev pub ZoneConfig : Type 0
ZoneConfig = List ZoneDefinition

-- `HashMap<(DnsName, RecordType), Vec<DnsRecord>>`, as a list of its entries.
abbrev pub Table : Type 0
Table = List ((DnsName × RecordType) × List DnsRecord)

pub record Zone : Type 0 where
  pub name : DnsName
  pub soa : DnsRecord
  pub records : Table
  pub ns_records : List DnsRecord

-- `==` of two keys.
unfoldable pub key_eq : DnsName × RecordType → DnsName × RecordType → Bool
key_eq (n, t) (n', t') = name_eq n n' && type_eq t t'

-- `self.records.get(&key)`
unfoldable pub get : DnsName × RecordType → Table → Option (List DnsRecord)
get key [] = none
get key ((j, rs) ∷ table) = let rest = get key table in if key_eq j key then some rs else rest

-- `records.entry(key).or_default().push(record)`
unfoldable pub push : DnsName × RecordType → DnsRecord → Table → Table
push key r [] = (key, r ∷ []) ∷ []
push key r ((j, rs) ∷ table) =
    let rest = push key r table in
    if key_eq j key then (j, rs ++ (r ∷ [])) ∷ table else (j, rs) ∷ rest

abbrev pub or_else : {A : Type 0} → Option A → A → A
or_else none d = d
or_else (some v) d = v

-- `.map_err(|e| DnsError::ParseError(format!("<prefix>{}", e)))`
unfoldable pub name_or : Text → NameResult → Result DnsName
name_or prefix (named n) = ok n
name_or prefix (refused e) = err (parse_error (prefix ++ error_text e))

unfoldable pub or_error : {A : Type 0} → Option A → DnsError → Result A
or_error none e = err e
or_error (some v) e = ok v

-- `Ipv4Addr::from_str` and `Ipv6Addr::from_str` of the standard library.
pub record AddrLib : Type 0 where
  pub parse_ipv4 : Text → Option Ipv4Addr
  pub parse_ipv6 : Text → Option Bytes

module _ ⦃t : TextLib⦄ ⦃addr : AddrLib⦄ where
  abbrev pub plain_name : Text → Result DnsName
  plain_name s = name_or [] (Name.new s)

  unfoldable pub rdata_of : RecordConfig → RecordType → Result RData
  rdata_of rec RecordType.a = do
    ip ← or_error (addr.parse_ipv4 rec.value) (parse_error (ascii "Invalid IPv4: " ++ rec.value))
    ok (a ip)
  rdata_of rec RecordType.aaaa = do
    ip ← or_error (addr.parse_ipv6 rec.value) (parse_error (ascii "Invalid IPv6: " ++ rec.value))
    ok (aaaa ip)
  rdata_of rec RecordType.cname = do n ← plain_name rec.value; ok (cname n)
  rdata_of rec RecordType.ns = do n ← plain_name rec.value; ok (ns n)
  rdata_of rec RecordType.mx = do n ← plain_name rec.value; ok (mx (or_else rec.priority 10) n)
  rdata_of rec RecordType.txt = ok (txt (rec.value ∷ []))
  rdata_of rec RecordType.srv = do
    n ← plain_name rec.value
    ok (srv (or_else rec.priority 0) (or_else rec.weight 0) (or_else rec.port 0) n)
  rdata_of rec RecordType.ptr = do n ← plain_name rec.value; ok (ptr n)
  rdata_of rec _ = err (parse_error (ascii "Unsupported zone record type: " ++ rec.record_type))

  unfoldable pub record_name : DnsName → Text → RecordConfig → Result DnsName
  record_name zone_name def_name rec =
      if text_eq rec.name (ascii "@")
      then ok zone_name
      else plain_name (rec.name ++ (dot ∷ def_name))

  -- One round of the loop, up to the record.
  unfoldable pub convert : DnsName → Text → ℕ → RecordConfig → Result DnsRecord
  convert zone_name def_name default_ttl rec = do
    n ← record_name zone_name def_name rec
    rtype ←
        or_error (from_str_type rec.record_type)
          (parse_error (ascii "Unknown record type: " ++ rec.record_type))
    rdata ← rdata_of rec rtype
    ok (Record.new n rtype (or_else rec.ttl default_ttl) rdata)

  -- The loop over `def.records`, with `records` and `ns_records`.
  unfoldable pub load_records :
      DnsName
      → Text
      → ℕ
      → List RecordConfig
      → Table
      → List DnsRecord
      → Result (Table × List DnsRecord)
  load_records zone_name def_name default_ttl [] table ns_records = ok (table, ns_records)
  load_records zone_name def_name default_ttl (rec ∷ recs) table ns_records =
      convert zone_name def_name default_ttl rec >>= λ r.
      load_records zone_name def_name default_ttl recs (push (r.name, r.record_type) r table)
        (if type_eq r.record_type RecordType.ns then ns_records ++ (r ∷ []) else ns_records)

  unfoldable pub from_config : ZoneDefinition → Result Zone
  from_config def = do
    zone_name ← name_or (ascii "Invalid zone name: ") (Name.new def.name)
    mname ← plain_name def.soa.mname
    rname ← plain_name def.soa.rname
    loaded ← load_records zone_name def.name def.soa.minimum def.records [] []
    ok (record {
      name = zone_name;
      soa = Record.new zone_name RecordType.soa def.soa.minimum (
          soa mname rname def.soa.serial def.soa.refresh def.soa.retry def.soa.expire
            def.soa.minimum);
      records = loaded.0;
      ns_records = loaded.1;
    })

  -- `ZoneStore::load_config`: the zones before a bad one stay loaded.
  unfoldable pub load_config : ZoneConfig → List Zone → Result (Unit {0}) × List Zone
  load_config [] zones = (ok tt, zones)
  load_config (def ∷ defs) zones = elim (from_config def) [
    | err e ↦ (err e, zones)
    | ok zone ↦ load_config defs (zones ++ (zone ∷ []))
  ]

unfoldable pub is_empty : {A : Type 0} → List A → Bool
is_empty [] = true
is_empty (x ∷ xs) = false

-- `Zone::lookup`
unfoldable pub zone_lookup : Zone → DnsName → RecordType → Option (List DnsRecord)
zone_lookup z n rtype =
    if type_eq rtype RecordType.soa && name_eq n z.name
    then some (z.soa ∷ [])
    else if (type_eq rtype RecordType.ns && name_eq n z.name) && not (is_empty z.ns_records)
    then some z.ns_records
    else get (n, rtype) z.records

-- `Zone::contains`
unfoldable pub contains : Zone → DnsName → Bool
contains z n = is_subdomain_of n z.name || name_eq n z.name

unfoldable pub any_key : DnsName → Table → Bool
any_key n [] = false
any_key n (((m, rtype), rs) ∷ table) = name_eq m n || any_key n table

-- `Zone::has_name`
unfoldable pub has_name : Zone → DnsName → Bool
has_name z n = if name_eq n z.name then true else any_key n z.records

-- `max_by_key(|z| z.name.label_count())`, which keeps the later of two equal ones.
unfoldable pub better : Option Zone → Zone → Zone
better none z = z
better (some best) z = if ltb (label_count z.name) (label_count best.name) then best else z

unfoldable pub best_of : DnsName → List Zone → Option Zone → Option Zone
best_of n [] best = best
best_of n (z ∷ zones) best = best_of n zones (if contains z n then some (better best z) else best)

-- `ZoneStore::find_zone`
unfoldable pub find_zone : List Zone → DnsName → Option Zone
find_zone zones n = best_of n zones none

-- `ZoneStore::lookup`
unfoldable pub store_lookup : List Zone → DnsName → RecordType → Option (List DnsRecord)
store_lookup zones n rtype = elim (find_zone zones n) [
  | none ↦ none
  | some z ↦ zone_lookup z n rtype
]
