-- ===== src/Rdata/Print.antt =====
-- `impl fmt::Display for RData` of src/dns/rdata.rs. The short form in which Rust's standard library
-- prints an `Ipv6Addr` is a parameter.
use rust_dns_server.Base.{List, [], ◌∷◌, ◌++◌, length, Bytes}
use rust_dns_server.Text.{Text, ascii, decimal}
use rust_dns_server.Name
use rust_dns_server.Codes.TypeNames.{type_name}
use rust_dns_server.Rdata.{
  RData, a, aaaa, cname, mx, txt, ns, soa, srv, ptr, ds, dnskey, rrsig, nsec, opt, unknown,
  Ipv4Addr,
}

-- `texts.join(separator)`
unfoldable pub join : Text → List Text → Text
join separator [] = []
join separator (text ∷ []) = text
join separator (text ∷ next ∷ texts) = text ++ (separator ++ join separator (next ∷ texts))

-- The arguments of a format string with a space between any two.
unfoldable pub words : List Text → Text
words = join (ascii " ")

-- `Ipv4Addr` of the standard library.
unfoldable pub display_ipv4 : Ipv4Addr → Text
display_ipv4 ip =
    join (ascii ".")
      (decimal ip.octet0 ∷ decimal ip.octet1 ∷ decimal ip.octet2 ∷ decimal ip.octet3 ∷ [])

module _ (display_ipv6 : Bytes → Text) where
  unfoldable pub display : RData → Text
  display (a addr) = display_ipv4 addr
  display (aaaa addr) = display_ipv6 addr
  display (cname name) = Name.display name
  display (ns name) = Name.display name
  display (ptr name) = Name.display name
  display (mx preference exchange) = words (decimal preference ∷ Name.display exchange ∷ [])
  display (txt texts) = ascii "\"" ++ (join (ascii "\" \"") texts ++ ascii "\"")
  display (soa mname rname serial refresh retry expire minimum) =
      words (Name.display mname ∷ Name.display rname ∷ decimal serial ∷ [])
  display (srv priority weight port target) =
      words (decimal priority ∷ decimal weight ∷ decimal port ∷ Name.display target ∷ [])
  display (ds key_tag algorithm digest_type digest) =
      words (decimal key_tag ∷ decimal algorithm ∷ [])
  display (dnskey flags protocol algorithm public_key) =
      words (decimal flags ∷ ascii "3" ∷ decimal algorithm ∷ [])
  display (rrsig covered algorithm labels ttl expiration inception key_tag signer signature) =
      words (type_name covered ∷ Name.display signer ∷ [])
  display (nsec next_domain type_bitmaps) = Name.display next_domain
  display (opt raw) = ascii "<OPT>"
  display (unknown raw) = ascii "<" ++ (decimal (length raw) ++ ascii " bytes>")
