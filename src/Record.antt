-- ===== src/Record.antt =====
-- `DnsRecord` of src/dns/record.rs.
pub mod Ends
pub mod Wire
use rust_dns_server.Base.{ℕ, ◌+◌, ◌%◌, ◌++◌, length, leb, Bytes, to_be16, to_be32}
use rust_dns_server.Text.{TextLib}
use rust_dns_server.Error.{buffer_too_short}
use rust_dns_server.Reader.{
  Parser, bind, ◌>>=◌, ◌>>◌, pure, offset, set_offset, require, u16_at, u32_at,
}
use rust_dns_server.Name
use rust_dns_server.Name.{DnsName}
use rust_dns_server.Codes.RecordType
use rust_dns_server.Codes.RecordType.{RecordType}
use rust_dns_server.Codes.RecordClass
use rust_dns_server.Codes.RecordClass.{RecordClass}
use rust_dns_server.Rdata
use rust_dns_server.Rdata.{RData}

pub record DnsRecord : Type 0 where
  pub name : DnsName
  pub record_type : RecordType
  pub record_class : RecordClass
  pub ttl : ℕ
  pub rdata : RData

unfoldable pub new : DnsName → RecordType → ℕ → RData → DnsRecord
new name record_type ttl rdata = record {
  name = name;
  record_type = record_type;
  record_class = RecordClass.in_class;
  ttl = ttl;
  rdata = rdata;
}

-- `rdata.len() as u16` wraps around.
unfoldable pub serialize : DnsRecord → Bytes
serialize r =
    let rdata = Rdata.serialize r.rdata in
    Name.to_wire r.name
    ++ (to_be16 (RecordType.to_u16 r.record_type)
        ++ (to_be16 (RecordClass.to_u16 r.record_class)
            ++ (to_be32 r.ttl ++ (to_be16 (length rdata % 65536) ++ rdata))))

module _ ⦃t : TextLib⦄ where
  unfoldable pub parse : Bytes → Parser DnsRecord
  parse bytes = do
    name ← Name.parse bytes
    o ← offset
    require (leb (o + 10) (length bytes)) buffer_too_short
    record_type ← u16_at bytes o
    record_class ← u16_at bytes (o + 2)
    ttl ← u32_at bytes (o + 4)
    rdlength ← u16_at bytes (o + 8)
    set_offset (o + 10)
    rdata ← Rdata.Parse.parse (RecordType.from_u16 record_type) bytes rdlength
    pure (record {
      name = name;
      record_type = RecordType.from_u16 record_type;
      record_class = RecordClass.from_u16 record_class;
      ttl = ttl;
      rdata = rdata;
    })
