-- ===== src/Question.antt =====
-- `DnsQuestion` of src/dns/question.rs.
pub mod Wire
use rust_dns_server.Base.{ℕ, ◌+◌, ◌++◌, length, leb, Bytes, to_be16}
use rust_dns_server.Text.{TextLib}
use rust_dns_server.Error.{buffer_too_short}
use rust_dns_server.Reader.{Parser, bind, ◌>>=◌, ◌>>◌, pure, offset, set_offset, require, u16_at}
use rust_dns_server.Name
use rust_dns_server.Name.{DnsName}
use rust_dns_server.Codes.RecordType
use rust_dns_server.Codes.RecordType.{RecordType}
use rust_dns_server.Codes.RecordClass
use rust_dns_server.Codes.RecordClass.{RecordClass}

pub record DnsQuestion : Type 0 where
  pub name : DnsName
  pub record_type : RecordType
  pub record_class : RecordClass

unfoldable pub new : DnsName → RecordType → DnsQuestion
new name record_type = record {
  name = name;
  record_type = record_type;
  record_class = RecordClass.in_class;
}

unfoldable pub serialize : DnsQuestion → Bytes
serialize q =
    Name.to_wire q.name
    ++ (to_be16 (RecordType.to_u16 q.record_type) ++ to_be16 (RecordClass.to_u16 q.record_class))

module _ ⦃t : TextLib⦄ where
  unfoldable pub parse : Bytes → Parser DnsQuestion
  parse bytes = do
    name ← Name.parse bytes
    o ← offset
    require (leb (o + 4) (length bytes)) buffer_too_short
    record_type ← u16_at bytes o
    record_class ← u16_at bytes (o + 2)
    set_offset (o + 4)
    pure (record {
      name = name;
      record_type = RecordType.from_u16 record_type;
      record_class = RecordClass.from_u16 record_class;
    })
