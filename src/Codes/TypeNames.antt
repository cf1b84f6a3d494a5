-- ===== src/Codes/TypeNames.antt =====
-- `RecordType::from_str_type` and the `Display` of a record type in src/dns/rdata.rs.
use rust_dns_server.Base.{Option, none, some, ◌++◌, if◌then◌else◌}
use rust_dns_server.Text.{Text, TextLib, ascii, decimal}
use rust_dns_server.Name.{text_eq}
use rust_dns_server.Codes.RecordType.{
  RecordType, a, aaaa, cname, mx, txt, ns, soa, srv, ptr, ds, dnskey, rrsig, nsec, opt, unknown,
}

unfoldable pub type_name : RecordType → Text
type_name a = ascii "A"
type_name aaaa = ascii "AAAA"
type_name cname = ascii "CNAME"
type_name mx = ascii "MX"
type_name txt = ascii "TXT"
type_name ns = ascii "NS"
type_name soa = ascii "SOA"
type_name srv = ascii "SRV"
type_name ptr = ascii "PTR"
type_name ds = ascii "DS"
type_name dnskey = ascii "DNSKEY"
type_name rrsig = ascii "RRSIG"
type_name nsec = ascii "NSEC"
type_name opt = ascii "OPT"
type_name (unknown n) = ascii "TYPE" ++ decimal n

-- The `match` on the text in upper case.
unfoldable pub type_of_upper : Text → Option RecordType
type_of_upper s =
    if text_eq s (ascii "A")
    then some a
    else if text_eq s (ascii "AAAA")
    then some aaaa
    else if text_eq s (ascii "CNAME")
    then some cname
    else if text_eq s (ascii "MX")
    then some mx
    else if text_eq s (ascii "TXT")
    then some txt
    else if text_eq s (ascii "NS")
    then some ns
    else if text_eq s (ascii "SOA")
    then some soa
    else if text_eq s (ascii "SRV")
    then some srv
    else if text_eq s (ascii "PTR")
    then some ptr
    else if text_eq s (ascii "DS")
    then some ds
    else if text_eq s (ascii "DNSKEY")
    then some dnskey
    else none

module _ ⦃t : TextLib⦄ where
  unfoldable pub from_str_type : Text → Option RecordType
  from_str_type s = type_of_upper (t.to_uppercase s)
