-- ===== src/Record/Ends.antt =====
-- `DnsRecord::parse` ends on every buffer.
use rust_dns_server.Base.{◌+◌, ℕ, leb, length, Bytes}
use rust_dns_server.Text.{TextLib}
use rust_dns_server.Error.{buffer_too_short}
use rust_dns_server.Reader.{
  Ends, Ends-bind, Returns-Ends, require, require-Ends, u16_at, u16_at-Ends, u32_at, u32_at-Ends,
}
use rust_dns_server.Name
use rust_dns_server.Name.Safety as NameSafety
use rust_dns_server.Codes.RecordType
use rust_dns_server.Rdata
use rust_dns_server.Record.{parse}

module _ ⦃t : TextLib⦄ (bytes : Bytes) where
  -- `parse` never runs out of rounds.
  pub parse-Ends : (o : ℕ) → Ends (parse bytes o)
  unfolding parse
  parse-Ends o =
      Ends-bind (Name.parse bytes o) _
        (Returns-Ends _ (Name.parse bytes o) (NameSafety.parse-Returns_name bytes o))
        λ name s.
          Ends-bind (require (leb (s + 10) (length bytes)) buffer_too_short s) _
            (require-Ends (leb (s + 10) (length bytes)) buffer_too_short s)
            λ u o0. Ends-bind (u16_at bytes s o0) _ (u16_at-Ends bytes s o0) λ code o1.
              Ends-bind (u16_at bytes (s + 2) o1) _ (u16_at-Ends bytes (s + 2) o1) λ class o2.
                Ends-bind (u32_at bytes (s + 4) o2) _ (u32_at-Ends bytes (s + 4) o2) λ ttl o3.
                  Ends-bind (u16_at bytes (s + 8) o3) _ (u16_at-Ends bytes (s + 8) o3)
                    λ rdlength o4.
                      Ends-bind
                        (Rdata.Parse.parse (RecordType.from_u16 code) bytes rdlength (s + 10)) _
                        (Rdata.Ends.parse-Ends bytes (RecordType.from_u16 code) rdlength (s + 10))
                        λ rdata o5. tt
