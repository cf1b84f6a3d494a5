-- ===== src/Tests/Zones.antt =====
-- A zone from a configuration: runs, and the theorems at concrete inputs.
use mathlib.Core.List.{Memᴰ}
use mathlib.Core.Path.{subst}
use rust_dns_server.Base.{sym, ◌≡◌, refl, true, none, some, List, [], ◌∷◌, ◌++◌}
use rust_dns_server.Text.{ascii, ascii_text}
use rust_dns_server.Error.{ok}
use rust_dns_server.Name
use rust_dns_server.Name.{
  DnsName, is_subdomain_of, text_eq, labels_eq, name_eq, label_count, split_dots, strip_dot,
  check_labels, any_longer, wire_sum,
}
use rust_dns_server.Codes.RecordType
use rust_dns_server.Codes.RecordType.{type_eq}
use rust_dns_server.Codes.TypeNames.{from_str_type, type_of_upper}
use rust_dns_server.Rdata.{soa}
use rust_dns_server.Record
use rust_dns_server.Record.{DnsRecord}
use rust_dns_server.Zone.{
  ZoneDefinition, Zone, AddrLib, from_config, zone_lookup, find_zone, best_of, better, contains,
  name_or, or_error, rdata_of, record_name, convert, load_records, push, get, key_eq, store_lookup,
}
use rust_dns_server.Zone.Load.{convert_all, answer, zone_lookup-from_config}
use rust_dns_server.Zone.Find.{IsBest, find_zone-IsBest}
use rust_dns_server.Zone.Names.{zone_lookup-contains}
use rust_dns_server.Tests.Data.{www, ab, www_ab, mail}

-- No zone of these tests has an address.
instance abbrev pub no_addresses : AddrLib
no_addresses = record { parse_ipv4 = λ s. none; parse_ipv6 = λ s. none }

abbrev pub definition : ZoneDefinition
definition = record {
  name = ab;
  soa = record {
    mname = ab;
    rname = ab;
    serial = 1;
    refresh = 2;
    retry = 3;
    expire = 4;
    minimum = 300;
  };
  records =
      record {
        name = www;
        record_type = b'M' ∷ b'x' ∷ [];
        ttl = none;
        value = www ++ (b'.' ∷ ab);
        priority = none;
        weight = none;
        port = none;
      }
      ∷ [];
}

abbrev apex : DnsName
apex = record { labels = ab ∷ [] }

abbrev pub zone : Zone
zone = record {
  name = apex;
  soa = Record.new apex RecordType.soa 300 (soa apex apex 1 2 3 4 300);
  records = ((www_ab, RecordType.mx), mail ∷ []) ∷ [];
  ns_records = [];
}

abbrev root_zone : Zone
root_zone = record zone { name = Name.root }

-- `from_config`, by evaluation.
pub loads : from_config definition ≡ ok zone
unfolding from_config load_records convert record_name rdata_of or_error name_or push key_eq
    from_str_type type_of_upper Name.new text_eq split_dots strip_dot check_labels any_longer
    wire_sum ascii Record.new type_eq RecordType.discrete
loads = refl

pub finds_mail : zone_lookup zone www_ab RecordType.mx ≡ some (mail ∷ [])
unfolding zone_lookup get key_eq type_eq RecordType.discrete name_eq labels_eq text_eq
finds_mail = refl

pub store_finds_mail : store_lookup (zone ∷ []) www_ab RecordType.mx ≡ some (mail ∷ [])
unfolding store_lookup find_zone best_of better contains is_subdomain_of zone_lookup get key_eq
    labels_eq text_eq type_eq RecordType.discrete name_eq
store_finds_mail = refl

zone_lookup-from_config_example :
    (rs : List DnsRecord) × (convert_all apex ab 300 definition.records ≡ ok rs)
    × (zone_lookup zone www_ab RecordType.mx ≡ answer apex zone.soa rs www_ab RecordType.mx)
zone_lookup-from_config_example = zone_lookup-from_config definition zone www_ab RecordType.mx loads

zone_lookup-contains_example : contains zone www_ab ≡ true
zone_lookup-contains_example =
    zone_lookup-contains definition zone www_ab RecordType.mx (mail ∷ []) loads finds_mail

find_zone-IsBest_example :
    IsBest www_ab (root_zone ∷ zone ∷ []) (find_zone (root_zone ∷ zone ∷ []) www_ab)
find_zone-IsBest_example = find_zone-IsBest www_ab (root_zone ∷ zone ∷ [])

-- Every zone of the list comes from a configuration.
pub configured : (z : Zone) → Memᴰ z (zone ∷ []) → (def : ZoneDefinition) × (from_config def ≡ ok z)
configured z (Memᴰ.head e) =
    (definition, subst (λ (y : Zone). from_config definition ≡ ok y) (sym e) loads)
configured z (Memᴰ.tail m) = elim m [ ]
