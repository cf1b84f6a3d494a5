-- ===== src/Rdata.antt =====
-- `RData` of src/dns/rdata.rs, and the bytes that `RData::serialize` writes.
pub mod Parse
pub mod Safety
pub mod Panic
pub mod Txt
pub mod Ends
pub mod Arms
pub mod Wire
pub mod Pieces
pub mod Print
use rust_dns_server.Base.{
  ℕ, zero, suc, ◌<◌, Bool, List, [], ◌∷◌, ◌++◌, length, take, drop, ltb, if◌then◌else◌, Bytes,
  to_be16, to_be32,
}
use rust_dns_server.Text.{Text}
use rust_dns_server.Name.{DnsName, to_wire}
use rust_dns_server.Codes.RecordType
use rust_dns_server.Codes.RecordType.{RecordType}

-- `std::net::Ipv4Addr`, by its octets.
pub record Ipv4Addr : Type 0 where
  pub octet0 : ℕ
  pub octet1 : ℕ
  pub octet2 : ℕ
  pub octet3 : ℕ

-- The fields stand in the order of the source; an `Ipv6Addr` is its sixteen octets.
pub data RData : Type 0 where
  a : Ipv4Addr → RData
  aaaa : Bytes → RData
  cname : DnsName → RData
  mx : (preference : ℕ) → (exchange : DnsName) → RData
  txt : List Text → RData
  ns : DnsName → RData
  soa : (mname rname : DnsName) → (serial refresh retry expire minimum : ℕ) → RData
  srv : (priority weight port : ℕ) → (target : DnsName) → RData
  ptr : DnsName → RData
  ds : (key_tag algorithm digest_type : ℕ) → (digest : Bytes) → RData
  dnskey : (flags protocol algorithm : ℕ) → (public_key : Bytes) → RData
  rrsig :
      (type_covered : RecordType)
      → (algorithm labels original_ttl signature_expiration signature_inception key_tag : ℕ)
      → (signer_name : DnsName) → (signature : Bytes) → RData
  nsec : (next_domain : DnsName) → (type_bitmaps : Bytes) → RData
  opt : Bytes → RData
  unknown : Bytes → RData

-- `for chunk in bytes.chunks(255)`: each chunk behind its length. A chunk takes a byte at least, so
-- `length bytes` rounds are enough.
unfoldable pub write_chunks : ℕ → Bytes → Bytes
write_chunks fuel [] = []
write_chunks zero (b ∷ bytes) = []
write_chunks (suc fuel) (b ∷ bytes) =
    let chunk = take 255 (b ∷ bytes) in
    length chunk ∷ (chunk ++ write_chunks fuel (drop 255 (b ∷ bytes)))

-- One text of a TXT record.
unfoldable pub write_text : Text → Bytes
write_text [] = 0 ∷ []
write_text (b ∷ text) = write_chunks (length (b ∷ text)) (b ∷ text)

unfoldable pub write_texts : List Text → Bytes
write_texts [] = []
write_texts (text ∷ texts) = write_text text ++ write_texts texts

abbrev pub octets : Ipv4Addr → Bytes
octets ip = ip.octet0 ∷ ip.octet1 ∷ ip.octet2 ∷ ip.octet3 ∷ []

unfoldable pub serialize : RData → Bytes
serialize (a ip) = octets ip
serialize (aaaa ip) = ip
serialize (cname n) = to_wire n
serialize (ns n) = to_wire n
serialize (ptr n) = to_wire n
serialize (mx preference exchange) = to_be16 preference ++ to_wire exchange
serialize (txt texts) = write_texts texts
serialize (soa mname rname serial refresh retry expire minimum) =
    to_wire mname
    ++ (to_wire rname
        ++ (to_be32 serial
            ++ (to_be32 refresh ++ (to_be32 retry ++ (to_be32 expire ++ to_be32 minimum)))))
serialize (srv priority weight port target) =
    to_be16 priority ++ (to_be16 weight ++ (to_be16 port ++ to_wire target))
serialize (ds key_tag algorithm digest_type digest) =
    to_be16 key_tag ++ (algorithm ∷ digest_type ∷ digest)
serialize (dnskey flags protocol algorithm public_key) =
    to_be16 flags ++ (protocol ∷ algorithm ∷ public_key)
serialize
      (rrsig type_covered algorithm labels original_ttl expiration inception key_tag signer
        signature) =
    to_be16 (RecordType.to_u16 type_covered)
    ++ (algorithm
        ∷ labels
        ∷ (to_be32 original_ttl
            ++ (to_be32 expiration
                ++ (to_be32 inception ++ (to_be16 key_tag ++ (to_wire signer ++ signature))))))
serialize (nsec next_domain type_bitmaps) = to_wire next_domain ++ type_bitmaps
serialize (opt raw) = raw
serialize (unknown raw) = raw
