-- ===== src/Rdata/Wire.antt =====
-- The data of a record: `RData::serialize` and back by `RData::parse`, for every record type.
use rust_dns_server.Base.{
  ℕ, ◌+◌, ◌≤◌, ◌≡◌, refl, ◌++◌, arith, length, Bytes, le→leb, At, At-length, All, length-append,
  IsU16, IsU32, to_be32,
}
use rust_dns_server.Text.{TextLib}
use rust_dns_server.Reader.{ok}
use rust_dns_server.Name.{DnsName, to_wire}
use rust_dns_server.Name.Wire
use rust_dns_server.Codes.RecordType
use rust_dns_server.Codes.RecordType.{RecordType}
use rust_dns_server.Rdata.{
  RData, a, aaaa, cname, mx, txt, ns, soa, srv, ptr, ds, dnskey, rrsig, nsec, opt, unknown,
  serialize,
}
use rust_dns_server.Rdata.Txt.{IsText}
use rust_dns_server.Rdata.Arms.{
  parse_a-Reads, parse_aaaa-Reads, parse_name-Reads, parse_mx-Reads, parse_txt-Reads,
  parse_soa-Reads, parse_srv-Reads, parse_ds-Reads, parse_dnskey-Reads, parse_rrsig-Reads,
  parse_nsec-Reads, parse_raw-Reads,
}
use rust_dns_server.Rdata.Parse.{parse_body, parse}

length_soa :
    (o : ℕ) (m r : DnsName) (v0 v1 v2 v3 v4 : ℕ)
    → o + length (serialize (soa m r v0 v1 v2 v3 v4))
      ≡ o + length (to_wire m) + length (to_wire r) + 20
unfolding serialize
length_soa o m r v0 v1 v2 v3 v4 =
    let numbers = to_be32 v0 ++ (to_be32 v1 ++ (to_be32 v2 ++ (to_be32 v3 ++ to_be32 v4))) in
    omega (
      arith,
      length-append {0} (to_wire m) (to_wire r ++ numbers),
      length-append {0} (to_wire r) numbers,
    )

module _ ⦃t : TextLib⦄ where
  -- Data of the given record type whose numbers, texts and names fit their fields. The parser refuses
  -- a DS record without a digest and a DNSKEY record without a key.
  abbrev pub Fits : RecordType → RData → Type 0
  Fits RecordType.a (a ip) = Unit
  Fits RecordType.aaaa (aaaa ip) = length ip ≡ 16
  Fits RecordType.cname (cname n) = Wire.IsWire n
  Fits RecordType.ns (ns n) = Wire.IsWire n
  Fits RecordType.ptr (ptr n) = Wire.IsWire n
  Fits RecordType.mx (mx preference exchange) = IsU16 preference × Wire.IsWire exchange
  Fits RecordType.txt (txt texts) = All IsText texts
  Fits RecordType.soa (soa mname rname serial refresh retry expire minimum) =
      Wire.IsWire mname
      × Wire.IsWire rname
      × IsU32 serial
      × IsU32 refresh
      × IsU32 retry
      × IsU32 expire
      × IsU32 minimum
  Fits RecordType.srv (srv priority weight port target) =
      IsU16 priority × IsU16 weight × IsU16 port × Wire.IsWire target
  Fits RecordType.ds (ds key_tag algorithm digest_type digest) = IsU16 key_tag × (1 ≤ length digest)
  Fits RecordType.dnskey (dnskey flags protocol algorithm public_key) =
      IsU16 flags × (1 ≤ length public_key)
  Fits RecordType.rrsig
        (rrsig covered algorithm labels ttl expiration inception tag signer signature) =
      IsU16 (RecordType.to_u16 covered)
      × RecordType.IsKnown covered
      × IsU32 ttl
      × IsU32 expiration
      × IsU32 inception
      × IsU16 tag
      × Wire.IsWire signer
  Fits RecordType.nsec (nsec next_domain type_bitmaps) = Wire.IsWire next_domain
  Fits RecordType.opt (opt raw) = Unit
  Fits (RecordType.unknown n) (unknown raw) = Unit
  Fits _ _ = ⊥

  parse_body-serialize :
      (bytes : Bytes) (o : ℕ) (record_type : RecordType) (r : RData)
      → Fits record_type r
      → At bytes o (serialize r)
      → parse_body record_type bytes (o + length (serialize r)) (length (serialize r)) o
        ≡ ok r (o + length (serialize r))
  unfolding parse_body serialize
  parse_body-serialize bytes o RecordType.a (a ip) f w = parse_a-Reads bytes o ip w
  parse_body-serialize bytes o RecordType.aaaa (aaaa ip) f w = parse_aaaa-Reads bytes o ip f w
  parse_body-serialize bytes o RecordType.cname (cname n) f w = parse_name-Reads bytes o cname n f w
  parse_body-serialize bytes o RecordType.ns (ns n) f w = parse_name-Reads bytes o ns n f w
  parse_body-serialize bytes o RecordType.ptr (ptr n) f w = parse_name-Reads bytes o ptr n f w
  parse_body-serialize bytes o RecordType.mx (mx p n) f w =
      parse_mx-Reads bytes o p n _ f.0 f.1 w refl
  parse_body-serialize bytes o RecordType.txt (txt texts) f w = parse_txt-Reads bytes o texts f w
  parse_body-serialize bytes o RecordType.soa (soa m r v0 v1 v2 v3 v4) f w =
      parse_soa-Reads bytes o m r v0 v1 v2 v3 v4 _ f.0 f.1 (f.2, f.3, f.4, f.5, f.6) w
        (length_soa o m r v0 v1 v2 v3 v4)
  parse_body-serialize bytes o RecordType.srv (srv p v q n) f w =
      parse_srv-Reads bytes o p v q n (length (serialize (srv p v q n))) f w (omega arith)
  parse_body-serialize bytes o RecordType.ds (ds tag algorithm digest_type digest) f w =
      parse_ds-Reads bytes o tag algorithm digest_type digest
        (length (serialize (ds tag algorithm digest_type digest))) f.0 f.1 w (omega arith)
  parse_body-serialize bytes o RecordType.dnskey (dnskey flags protocol algorithm key) f w =
      parse_dnskey-Reads bytes o flags protocol algorithm key
        (length (serialize (dnskey flags protocol algorithm key))) f.0 f.1 w (omega arith)
  parse_body-serialize bytes o RecordType.rrsig
        (rrsig covered algorithm labels ttl expiration inception tag n signature) f w =
      parse_rrsig-Reads bytes o covered algorithm labels ttl expiration inception tag n signature
        (length
          (serialize (rrsig covered algorithm labels ttl expiration inception tag n signature)))
        f.0 f.1 (f.2, f.3, f.4, f.5) f.6 w (omega (arith, length-append {0} (to_wire n) signature))
  parse_body-serialize bytes o RecordType.nsec (nsec n bitmaps) f w =
      parse_nsec-Reads bytes o n bitmaps _ f w refl
  parse_body-serialize bytes o RecordType.opt (opt raw) f w = parse_raw-Reads bytes o opt raw w
  parse_body-serialize bytes o (RecordType.unknown n) (unknown raw) f w =
      parse_raw-Reads bytes o unknown raw w
  parse_body-serialize bytes o _ _ f w = absurd f

  -- `parse` reads back the data that `serialize` wrote anywhere in a buffer, for every record type,
  -- and stops right behind it, if the data is of the type, its numbers, texts and names fit their
  -- fields, and the digest of a DS record and the key of a DNSKEY record are not empty.
  pub parse-serialize_rdata :
      (bytes : Bytes) (o : ℕ) (record_type : RecordType) (r : RData)
      → Fits record_type r
      → At bytes o (serialize r)
      → parse record_type bytes (length (serialize r)) o ≡ ok r (o + length (serialize r))
  unfolding parse
  parse-serialize_rdata bytes o record_type r f w =
      rw (le→leb _ _ (At-length bytes o (serialize r) w))
        (parse_body-serialize bytes o record_type r f w)
