-- ===== src/Record/Wire.antt =====
-- A record: `DnsRecord::serialize` and back by `DnsRecord::parse`.
use rust_dns_server.Base.{
  ℕ, ◌+◌, ◌%◌, ◌≡◌, refl, ◌++◌, arith, length, Bytes, to_be16, to_be32, IsU16, IsU32, At, At-split,
  At-append, At-length, le→leb, length-append,
}
use rust_dns_server.Text.{TextLib}
use rust_dns_server.Reader.{ok, u16_at-At, u32_at-At}
use rust_dns_server.Name.{to_wire}
use rust_dns_server.Name.Wire as NameWire
use rust_dns_server.Codes.RecordType
use rust_dns_server.Codes.RecordClass
use rust_dns_server.Rdata
use rust_dns_server.Record.{DnsRecord, serialize, parse}

module _ ⦃t : TextLib⦄ where
  -- A record whose name, numbers and data fit the wire, and whose data is of its type.
  pub record IsWire (r : DnsRecord) : Type 0 where
    pub name_fits : NameWire.IsWire r.name
    pub type_fits : IsU16 (RecordType.to_u16 r.record_type)
    pub type_known : RecordType.IsKnown r.record_type
    pub class_fits : IsU16 (RecordClass.to_u16 r.record_class)
    pub class_known : RecordClass.IsKnown r.record_class
    pub ttl_fits : IsU32 r.ttl
    pub rdata_fits : Rdata.Wire.Fits r.record_type r.rdata
    pub rdata_short : IsU16 (length (Rdata.serialize r.rdata))

  -- `parse` reads back a record that `serialize` wrote anywhere in a buffer, for every record type, if
  -- its fields fit the wire and its data is of its type and shorter than 64 KiB, with a digest in a DS
  -- record and a key in a DNSKEY record that are not empty.
  pub parse-serialize_record :
      (bytes : Bytes) (o : ℕ) (r : DnsRecord)
      → IsWire r
      → At bytes o (serialize r)
      → parse bytes o ≡ ok r (o + length (serialize r))
  unfolding parse serialize
  parse-serialize_record bytes o r v w =
      let code = RecordType.to_u16 r.record_type in
      let class = RecordClass.to_u16 r.record_class in
      let body = Rdata.serialize r.rdata in
      let len = length body % 65536 in
      let whole : len ≡ length body = omega (arith, v.rdata_short) in
      let tail8 = to_be16 len ++ body in
      let tail4 = to_be32 r.ttl ++ tail8 in
      let tail = to_be16 code ++ (to_be16 class ++ tail4) in
      let (wn, w0) = At-append bytes o (to_wire r.name) tail w in
      let p = o + length (to_wire r.name) in
      let (wt, w2) = At-split bytes p (p + 2) (to_be16 code) (to_be16 class ++ tail4) refl w0 in
      let (wc, w4) = At-split bytes (p + 2) (p + 4) (to_be16 class) tail4 (omega arith) w2 in
      let (wl, w8) = At-split bytes (p + 4) (p + 8) (to_be32 r.ttl) tail8 (omega arith) w4 in
      let (wd, wb) = At-split bytes (p + 8) (p + 10) (to_be16 len) body (omega arith) w8 in
      let moved : o + length (to_wire r.name ++ tail) ≡ p + 10 + length body =
        omega (arith, length-append {0} (to_wire r.name) tail) in
      rw (
        moved,
        NameWire.parse-to_wire bytes o r.name v.name_fits wn,
        le→leb (p + 10) (length bytes) (omega (arith, At-length bytes (p + 10) body wb)),
        u16_at-At bytes p code p v.type_fits wt,
        u16_at-At bytes (p + 2) class p v.class_fits wc,
        u32_at-At bytes (p + 4) r.ttl p v.ttl_fits wl,
        u16_at-At bytes (p + 8) len p (omega arith) wd,
        whole,
        v.type_known,
        v.class_known,
        Rdata.Wire.parse-serialize_rdata bytes (p + 10) r.record_type r.rdata v.rdata_fits wb,
      )
