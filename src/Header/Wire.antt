-- ===== src/Header/Wire.antt =====
-- The twelve bytes of a header: `DnsHeader::serialize` and back by `DnsHeader::parse`.
use rust_dns_server.Base.{
  ℕ, ◌+◌, ◌≤◌, ◌<◌, ◌≡◌, refl, inl, inr, ◌∷◌, [], ◌++◌, arith, length, leb, Bool-cases, leb→le,
  le→leb, Bytes, IsU16, At, At-length, At-split, to_be16,
}
use rust_dns_server.Codes.OpCode
use rust_dns_server.Codes.ResponseCode
use rust_dns_server.Reader.{ok, Returns, index-lt, u16_at-lt, u16_at-At}
use rust_dns_server.Header.{DnsHeader, flags1, flags2, parse, serialize}
use rust_dns_server.Header.Flags.{byte1_fields, byte2_fields}

-- On every buffer `parse` returns a header and moves the offset by twelve, inside the buffer, or an
-- error.
pub parse-Returns_header :
    (bytes : Bytes) (o : ℕ) → Returns (λ h o'. (o' ≡ o + 12) × (o' ≤ length bytes)) (parse bytes o)
unfolding parse
parse-Returns_header bytes o = elim (Bool-cases (leb (o + 12) (length bytes))) [
  | inl fits ↦
      let room = leb→le _ _ fits in
      rw
        (
          fits,
          (u16_at-lt bytes o o (omega arith)).1,
          (index-lt bytes (o + 2) o (omega arith)).1,
          (index-lt bytes (o + 3) o (omega arith)).1,
          (u16_at-lt bytes (o + 4) o (omega arith)).1,
          (u16_at-lt bytes (o + 6) o (omega arith)).1,
          (u16_at-lt bytes (o + 8) o (omega arith)).1,
          (u16_at-lt bytes (o + 10) o (omega arith)).1,
        )
        (refl, room)
  | inr short ↦ rw short tt
]

-- A header whose numbers fit their fields: 16-bit words, and known codes of four bits.
pub record IsWire (h : DnsHeader) : Type 0 where
  pub id_fits : IsU16 h.id
  pub opcode_fits : OpCode.to_u8 h.opcode < 16
  pub opcode_known : OpCode.IsKnown h.opcode
  pub code_fits : ResponseCode.to_u8 h.response_code < 16
  pub code_known : ResponseCode.IsKnown h.response_code
  pub questions_fit : IsU16 h.question_count
  pub answers_fit : IsU16 h.answer_count
  pub authorities_fit : IsU16 h.authority_count
  pub additional_fit : IsU16 h.additional_count

-- `parse` reads back a header that `serialize` wrote anywhere in a buffer, every flag included, and
-- stops behind its twelve bytes, if its numbers fit their fields and its codes are known.
pub parse-serialize_header :
    (bytes : Bytes) (o : ℕ) (h : DnsHeader)
    → IsWire h
    → At bytes o (serialize h)
    → parse bytes o ≡ ok h (o + 12)
unfolding parse serialize flags1 flags2
parse-serialize_header bytes o h v w =
    let c1 = to_be16 h.question_count in
    let c2 = to_be16 h.answer_count in
    let c3 = to_be16 h.authority_count in
    let c4 = to_be16 h.additional_count in
    let tail4 = c1 ++ (c2 ++ (c3 ++ c4)) in
    let (at0, at2) = At-split bytes o (o + 2) (to_be16 h.id) (flags1 h ∷ flags2 h ∷ tail4) refl w in
    let (b2, at3) =
      At-split bytes (o + 2) (o + 3) (flags1 h ∷ []) (flags2 h ∷ tail4) (omega arith) at2 in
    let (b3, at4) = At-split bytes (o + 3) (o + 4) (flags2 h ∷ []) tail4 (omega arith) at3 in
    let (w4, at6) = At-split bytes (o + 4) (o + 6) c1 (c2 ++ (c3 ++ c4)) (omega arith) at4 in
    let (w6, at8) = At-split bytes (o + 6) (o + 8) c2 (c3 ++ c4) (omega arith) at6 in
    let (w8, w10) = At-split bytes (o + 8) (o + 10) c3 c4 (omega arith) at8 in
    let f1 =
      byte1_fields (OpCode.to_u8 h.opcode) h.is_response h.authoritative h.truncated
        h.recursion_desired v.opcode_fits in
    let f2 =
      byte2_fields (ResponseCode.to_u8 h.response_code) h.recursion_available h.authentic_data
        h.checking_disabled v.code_fits in
    rw (
      le→leb (o + 12) (length bytes) (omega (arith, At-length bytes (o + 10) c4 w10)),
      u16_at-At bytes o h.id o v.id_fits at0,
      b2.0,
      b3.0,
      u16_at-At bytes (o + 4) h.question_count o v.questions_fit w4,
      u16_at-At bytes (o + 6) h.answer_count o v.answers_fit w6,
      u16_at-At bytes (o + 8) h.authority_count o v.authorities_fit w8,
      u16_at-At bytes (o + 10) h.additional_count o v.additional_fit w10,
      f1.0,
      f1.1,
      f1.2,
      f1.3,
      f1.4,
      f2.0,
      f2.1,
      f2.2,
      f2.3,
      v.opcode_known,
      v.code_known,
    )
