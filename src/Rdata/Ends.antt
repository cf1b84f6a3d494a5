-- ===== src/Rdata/Ends.antt =====
-- `RData::parse` ends on every buffer, for every record type.
use rust_dns_server.Base.{ℕ, ◌+◌, not, inl, inr, ltb, leb, length, Bytes, Bool-cases}
use rust_dns_server.Text.{TextLib}
use rust_dns_server.Text.{ascii}
use rust_dns_server.Error.{parse_error}
use rust_dns_server.Reader.{
  Ends, Ends-bind, Returns-Ends, require, require-Ends, index, index-Ends, u16_at, u16_at-Ends,
  u32_at, u32_at-Ends, slice, slice-Ends,
}
use rust_dns_server.Name
use rust_dns_server.Name.Safety as NameSafety
use rust_dns_server.Codes.RecordType.{RecordType}
use rust_dns_server.Rdata.Parse.{parse_rrsig, parse_nsec, parse_body, parse}
use rust_dns_server.Rdata.Safety as RdataSafety

module _ ⦃t : TextLib⦄ (bytes : Bytes) where
  name-Ends : (o : ℕ) → Ends (Name.parse bytes o)
  name-Ends o = Returns-Ends _ (Name.parse bytes o) (NameSafety.parse-Returns_name bytes o)

  parse_nsec-Ends : (until o : ℕ) → Ends (parse_nsec bytes until o)
  unfolding parse_nsec
  parse_nsec-Ends until o =
      Ends-bind (Name.parse bytes o) _ (name-Ends o)
        λ n p. Ends-bind (slice bytes p until p) _ (slice-Ends bytes p until p) λ raw q. tt

  parse_rrsig-Ends : (until rdlength o : ℕ) → Ends (parse_rrsig bytes until rdlength o)
  unfolding parse_rrsig
  parse_rrsig-Ends until rdlength o =
      Ends-bind (require (not (ltb rdlength 19)) (parse_error (ascii "Invalid RRSIG record")) o) _
        (require-Ends (not (ltb rdlength 19)) (parse_error (ascii "Invalid RRSIG record")) o)
        λ u s. Ends-bind (u16_at bytes s s) _ (u16_at-Ends bytes s s) λ a o1.
          Ends-bind (index bytes (s + 2) o1) _ (index-Ends bytes (s + 2) o1) λ b o2.
            Ends-bind (index bytes (s + 3) o2) _ (index-Ends bytes (s + 3) o2) λ c o3.
              Ends-bind (u32_at bytes (s + 4) o3) _ (u32_at-Ends bytes (s + 4) o3) λ d o4.
                Ends-bind (u32_at bytes (s + 8) o4) _ (u32_at-Ends bytes (s + 8) o4) λ e o5.
                  Ends-bind (u32_at bytes (s + 12) o5) _ (u32_at-Ends bytes (s + 12) o5) λ f o6.
                    Ends-bind (u16_at bytes (s + 16) o6) _ (u16_at-Ends bytes (s + 16) o6) λ g o7.
                      Ends-bind (Name.parse bytes (s + 18)) _ (name-Ends (s + 18)) λ n p.
                        Ends-bind (slice bytes p until p) _ (slice-Ends bytes p until p) λ raw q. tt

  behind_length :
      (record_type : RecordType) (rdlength o : ℕ)
      → Ends (parse_body record_type bytes (o + rdlength) rdlength o)
      → Ends (parse record_type bytes rdlength o)
  unfolding parse
  behind_length record_type rdlength o h = elim (Bool-cases (leb (o + rdlength) (length bytes))) [
    | inl e ↦ rw e h
    | inr e ↦ rw e tt
  ]

  -- `parse` never runs out of rounds, for any record type.
  pub parse-Ends :
      (record_type : RecordType) (rdlength o : ℕ) → Ends (parse record_type bytes rdlength o)
  unfolding parse_body
  parse-Ends RecordType.rrsig rdlength o =
      behind_length RecordType.rrsig rdlength o (parse_rrsig-Ends (o + rdlength) rdlength o)
  parse-Ends RecordType.nsec rdlength o =
      behind_length RecordType.nsec rdlength o (parse_nsec-Ends (o + rdlength) o)
  parse-Ends record_type rdlength o =
      Returns-Ends _ (parse record_type bytes rdlength o)
        (RdataSafety.parse-Returns_rdata bytes record_type rdlength o (λ h. h))
