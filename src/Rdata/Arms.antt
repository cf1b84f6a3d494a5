-- ===== src/Rdata/Arms.antt =====
-- The arms of `RData::parse`, each on the bytes that `RData::serialize` wrote.
mod Plain
pub use Plain.*
use rust_dns_server.Base.{
  ℕ, suc, ◌+◌, ◌≤◌, ◌≡◌, refl, List, [], ◌∷◌, ◌++◌, arith, length, Bytes, le→leb, le→ltb_false, At,
  At-split, At-length, At-append, All, length-append, IsU16, IsU32, to_be16, to_be32,
}
use rust_dns_server.Text.{Text, TextLib}
use rust_dns_server.Reader.{ok, slice-At, u16_at-At, u32_at-At}
use rust_dns_server.Name.{DnsName, to_wire}
use rust_dns_server.Name.Wire
use rust_dns_server.Codes.RecordType
use rust_dns_server.Codes.RecordType.{RecordType}
use rust_dns_server.Rdata.{
  RData, Ipv4Addr, a, aaaa, mx, txt, soa, srv, ds, dnskey, rrsig, nsec, serialize, octets,
  write_texts,
}
use rust_dns_server.Rdata.Txt.{IsText, txt_loop-write_texts}
use rust_dns_server.Rdata.Parse.{
  parse_a, parse_aaaa, parse_ds, parse_dnskey, parse_raw, parse_name, parse_mx, parse_txt,
  parse_soa, soa_numbers, parse_srv, parse_rrsig, parse_nsec,
}

module _ ⦃t : TextLib⦄ where
  module _ (bytes : Bytes) (o : ℕ) where
    pub parse_ds-Reads :
        (key_tag algorithm digest_type : ℕ) (digest : Bytes) (len : ℕ)
        → IsU16 key_tag
        → 1 ≤ length digest
        → At bytes o (to_be16 key_tag ++ (algorithm ∷ digest_type ∷ digest))
        → len ≡ 4 + length digest
        → parse_ds bytes (o + len) len o ≡ ok (ds key_tag algorithm digest_type digest) (o + len)
    unfolding parse_ds
    parse_ds-Reads key_tag algorithm digest_type digest len p q w e =
        let (w0, w2) =
          At-split bytes o (o + 2) (to_be16 key_tag) (algorithm ∷ digest_type ∷ digest) refl w in
        let (b2, w3) =
          At-split bytes (o + 2) (o + 3) (algorithm ∷ []) (digest_type ∷ digest) (omega arith) w2 in
        let (b3, w4) = At-split bytes (o + 3) (o + 4) (digest_type ∷ []) digest (omega arith) w3 in
        rw (
          le→ltb_false len 5 (omega arith),
          u16_at-At bytes o key_tag o p w0,
          b2.0,
          b3.0,
          slice-At bytes (o + 4) (o + len) o digest w4 (omega arith),
        )

    pub parse_dnskey-Reads :
        (flags protocol algorithm : ℕ) (key : Bytes) (len : ℕ)
        → IsU16 flags
        → 1 ≤ length key
        → At bytes o (to_be16 flags ++ (protocol ∷ algorithm ∷ key))
        → len ≡ 4 + length key
        → parse_dnskey bytes (o + len) len o ≡ ok (dnskey flags protocol algorithm key) (o + len)
    unfolding parse_dnskey
    parse_dnskey-Reads flags protocol algorithm key len p q w e =
        let (w0, w2) =
          At-split bytes o (o + 2) (to_be16 flags) (protocol ∷ algorithm ∷ key) refl w in
        let (b2, w3) =
          At-split bytes (o + 2) (o + 3) (protocol ∷ []) (algorithm ∷ key) (omega arith) w2 in
        let (b3, w4) = At-split bytes (o + 3) (o + 4) (algorithm ∷ []) key (omega arith) w3 in
        rw (
          le→ltb_false len 5 (omega arith),
          u16_at-At bytes o flags o p w0,
          b2.0,
          b3.0,
          slice-At bytes (o + 4) (o + len) o key w4 (omega arith),
        )

    pub parse_srv-Reads :
        (priority weight port : ℕ) (n : DnsName) (len : ℕ)
        → IsU16 priority × IsU16 weight × IsU16 port × Wire.IsWire n
        → At bytes o (serialize (srv priority weight port n))
        → len ≡ 6 + length (to_wire n)
        → parse_srv bytes (o + len) len o ≡ ok (srv priority weight port n) (o + len)
    unfolding parse_srv serialize
    parse_srv-Reads priority weight port n len h w e =
        let (w0, v2) =
          At-split bytes o (o + 2) (to_be16 priority)
            (to_be16 weight ++ (to_be16 port ++ to_wire n)) refl w in
        let (w2, v4) =
          At-split bytes (o + 2) (o + 4) (to_be16 weight) (to_be16 port ++ to_wire n) (omega arith)
            v2 in
        let (w4, w6) = At-split bytes (o + 4) (o + 6) (to_be16 port) (to_wire n) (omega arith) v4 in
        rw (
          le→ltb_false len 7 (omega (arith, Wire.to_wire_pos n)),
          u16_at-At bytes o priority o h.0 w0,
          u16_at-At bytes (o + 2) weight o h.1 w2,
          u16_at-At bytes (o + 4) port o h.2 w4,
          Wire.parse-to_wire bytes (o + 6) n h.3 w6,
        )

    pub soa_numbers-Reads :
        (m r : DnsName) (v0 v1 v2 v3 v4 : ℕ) (p : ℕ)
        → IsU32 v0 × IsU32 v1 × IsU32 v2 × IsU32 v3 × IsU32 v4
        → At bytes p (to_be32 v0 ++ (to_be32 v1 ++ (to_be32 v2 ++ (to_be32 v3 ++ to_be32 v4))))
        → soa_numbers m r bytes (p + 20) p ≡ ok (soa m r v0 v1 v2 v3 v4) (p + 20)
    unfolding soa_numbers
    soa_numbers-Reads m r v0 v1 v2 v3 v4 p h w =
        let (w0, x4) =
          At-split bytes p (p + 4) (to_be32 v0)
            (to_be32 v1 ++ (to_be32 v2 ++ (to_be32 v3 ++ to_be32 v4))) refl w in
        let (w4, x8) =
          At-split bytes (p + 4) (p + 8) (to_be32 v1) (to_be32 v2 ++ (to_be32 v3 ++ to_be32 v4))
            (omega arith) x4 in
        let (w8, x12) =
          At-split bytes (p + 8) (p + 12) (to_be32 v2) (to_be32 v3 ++ to_be32 v4) (omega arith)
            x8 in
        let (w12, w16) =
          At-split bytes (p + 12) (p + 16) (to_be32 v3) (to_be32 v4) (omega arith) x12 in
        rw (
          le→leb (p + 20) (p + 20) (omega arith),
          u32_at-At bytes p v0 p h.0 w0,
          u32_at-At bytes (p + 4) v1 p h.1 w4,
          u32_at-At bytes (p + 8) v2 p h.2 w8,
          u32_at-At bytes (p + 12) v3 p h.3 w12,
          u32_at-At bytes (p + 16) v4 p h.4 w16,
        )

    pub parse_soa-Reads :
        (m r : DnsName) (v0 v1 v2 v3 v4 until : ℕ)
        → Wire.IsWire m
        → Wire.IsWire r
        → IsU32 v0 × IsU32 v1 × IsU32 v2 × IsU32 v3 × IsU32 v4
        → At bytes o (serialize (soa m r v0 v1 v2 v3 v4))
        → until ≡ o + length (to_wire m) + length (to_wire r) + 20
        → parse_soa bytes until o ≡ ok (soa m r v0 v1 v2 v3 v4) until
    unfolding parse_soa serialize
    parse_soa-Reads m r v0 v1 v2 v3 v4 until hm hr h w e =
        let numbers = to_be32 v0 ++ (to_be32 v1 ++ (to_be32 v2 ++ (to_be32 v3 ++ to_be32 v4))) in
        let (wm, w1) = At-append bytes o (to_wire m) (to_wire r ++ numbers) w in
        let p = o + length (to_wire m) in
        let (wr, w2) = At-append bytes p (to_wire r) numbers w1 in
        rw (e, Wire.parse-to_wire bytes o m hm wm, Wire.parse-to_wire bytes p r hr wr)
          (soa_numbers-Reads m r v0 v1 v2 v3 v4 (p + length (to_wire r)) h w2)

    pub parse_rrsig-Reads :
        (covered : RecordType) (algorithm labels ttl expiration inception tag : ℕ) (n : DnsName)
        (signature : Bytes) (len : ℕ)
        → IsU16 (RecordType.to_u16 covered)
        → RecordType.IsKnown covered
        → IsU32 ttl × IsU32 expiration × IsU32 inception × IsU16 tag
        → Wire.IsWire n
        → At bytes o
            (serialize (rrsig covered algorithm labels ttl expiration inception tag n signature))
        → len ≡ 18 + length (to_wire n) + length signature
        → parse_rrsig bytes (o + len) len o
          ≡ ok (rrsig covered algorithm labels ttl expiration inception tag n signature) (o + len)
    unfolding parse_rrsig serialize
    parse_rrsig-Reads covered algorithm labels ttl expiration inception tag n signature len hc known
          h hn w e =
        let code = RecordType.to_u16 covered in
        let signed = to_wire n ++ signature in
        let from12 = to_be32 inception ++ (to_be16 tag ++ signed) in
        let from4 = to_be32 ttl ++ (to_be32 expiration ++ from12) in
        let (w0, x2) =
          At-split bytes o (o + 2) (to_be16 code) (algorithm ∷ labels ∷ from4) refl w in
        let (b2, x3) =
          At-split bytes (o + 2) (o + 3) (algorithm ∷ []) (labels ∷ from4) (omega arith) x2 in
        let (b3, x4) = At-split bytes (o + 3) (o + 4) (labels ∷ []) from4 (omega arith) x3 in
        let (w4, x8) =
          At-split bytes (o + 4) (o + 8) (to_be32 ttl) (to_be32 expiration ++ from12) (omega arith)
            x4 in
        let (w8, x12) =
          At-split bytes (o + 8) (o + 12) (to_be32 expiration) from12 (omega arith) x8 in
        let (w12, x16) =
          At-split bytes (o + 12) (o + 16) (to_be32 inception) (to_be16 tag ++ signed) (omega arith)
            x12 in
        let (w16, x18) = At-split bytes (o + 16) (o + 18) (to_be16 tag) signed (omega arith) x16 in
        let (wn, ws) = At-append bytes (o + 18) (to_wire n) signature x18 in
        let p = o + 18 + length (to_wire n) in
        rw (
          le→ltb_false len 19 (omega (arith, Wire.to_wire_pos n)),
          u16_at-At bytes o code o hc w0,
          b2.0,
          b3.0,
          u32_at-At bytes (o + 4) ttl o h.0 w4,
          u32_at-At bytes (o + 8) expiration o h.1 w8,
          u32_at-At bytes (o + 12) inception o h.2 w12,
          u16_at-At bytes (o + 16) tag o h.3 w16,
          Wire.parse-to_wire bytes (o + 18) n hn wn,
          slice-At bytes p (o + len) p signature ws (omega arith),
          known,
        )
