-- ===== src/Question/Wire.antt =====
-- A question: `DnsQuestion::serialize` and back by `DnsQuestion::parse`.
use rust_dns_server.Base.{
  ℕ, ◌+◌, ◌≤◌, ◌<◌, ◌≡◌, refl, ◌++◌, arith, length, leb, Bytes, to_be16, IsU16, At, At-split,
  At-append, At-length, le→leb, length-append, Bool-cases, inl, inr, leb→le,
}
use rust_dns_server.Text.{TextLib}
use rust_dns_server.Reader.{ok, Returns, Returns-bind, u16_at-At, u16_at-lt}
use rust_dns_server.Name
use rust_dns_server.Name.{to_wire}
use rust_dns_server.Name.Wire as NameWire
use rust_dns_server.Name.Safety as NameSafety
use rust_dns_server.Codes.RecordType
use rust_dns_server.Codes.RecordClass
use rust_dns_server.Question.{DnsQuestion, serialize, parse}

module _ ⦃t : TextLib⦄ where
  -- A question whose name and numbers fit the wire.
  pub record IsWire (q : DnsQuestion) : Type 0 where
    pub name_fits : NameWire.IsWire q.name
    pub type_fits : IsU16 (RecordType.to_u16 q.record_type)
    pub type_known : RecordType.IsKnown q.record_type
    pub class_fits : IsU16 (RecordClass.to_u16 q.record_class)
    pub class_known : RecordClass.IsKnown q.record_class

  -- `parse` reads back a question that `serialize` wrote anywhere in a buffer, if its name and numbers
  -- fit the wire.
  pub parse-serialize_question :
      (bytes : Bytes) (o : ℕ) (q : DnsQuestion)
      → IsWire q
      → At bytes o (serialize q)
      → parse bytes o ≡ ok q (o + length (serialize q))
  unfolding parse serialize
  parse-serialize_question bytes o q v w =
      let code = RecordType.to_u16 q.record_type in
      let class = RecordClass.to_u16 q.record_class in
      let (wn, w0) = At-append bytes o (to_wire q.name) (to_be16 code ++ to_be16 class) w in
      let p = o + length (to_wire q.name) in
      let (wt, wc) = At-split bytes p (p + 2) (to_be16 code) (to_be16 class) refl w0 in
      let moved : o + length (to_wire q.name ++ (to_be16 code ++ to_be16 class)) ≡ p + 4 =
        omega (arith, length-append {0} (to_wire q.name) (to_be16 code ++ to_be16 class)) in
      rw (
        NameWire.parse-to_wire bytes o q.name v.name_fits wn,
        le→leb (p + 4) (length bytes) (omega (arith, At-length bytes (p + 2) (to_be16 class) wc)),
        u16_at-At bytes p code p v.type_fits wt,
        u16_at-At bytes (p + 2) class p v.class_fits wc,
        v.type_known,
        v.class_known,
        moved,
      )

  -- On every buffer `parse` returns a question and moves forward inside the buffer, or an error.
  pub parse-Returns_question :
      (bytes : Bytes) (o : ℕ) → Returns (λ q o'. (o < o') × (o' ≤ length bytes)) (parse bytes o)
  unfolding parse
  parse-Returns_question bytes o =
      Returns-bind (λ n o'. (o < o') × (o' ≤ length bytes)) (λ q o'. (o < o') × (o' ≤ length bytes))
        (Name.parse bytes o) _ (NameSafety.parse-Returns_name bytes o)
        (λ n o' h. elim (Bool-cases (leb (o' + 4) (length bytes))) [
          | inl e ↦
              let room = leb→le _ _ e in
              rw
                (
                  e,
                  (u16_at-lt bytes o' o' (omega arith)).1,
                  (u16_at-lt bytes (o' + 2) o' (omega arith)).1,
                )
                (omega arith, room)
          | inr e ↦ rw e tt
        ])
