-- ===== src/Header.antt =====
-- `DnsHeader` of src/dns/header.rs: the message header and its twelve bytes.
pub mod Flags
pub mod Wire
use rust_dns_server.Base.{
  ℕ, ◌+◌, ◌*◌, ◌/◌, ◌%◌, Bool, true, false, not, List, [], ◌∷◌, ◌++◌, length, leb, ◌==◌,
  if◌then◌else◌, Bytes, bit_and, bit_or, to_be16,
}
use rust_dns_server.Error.{buffer_too_short}
use rust_dns_server.Reader.{
  Parser, bind, ◌>>=◌, ◌>>◌, pure, offset, set_offset, require, index, u16_at,
}
use rust_dns_server.Codes.OpCode
use rust_dns_server.Codes.OpCode.{OpCode}
use rust_dns_server.Codes.ResponseCode
use rust_dns_server.Codes.ResponseCode.{ResponseCode}

pub record DnsHeader : Type 0 where
  pub id : ℕ
  pub is_response : Bool
  pub opcode : OpCode
  pub authoritative : Bool
  pub truncated : Bool
  pub recursion_desired : Bool
  pub recursion_available : Bool
  pub authentic_data : Bool
  pub checking_disabled : Bool
  pub response_code : ResponseCode
  pub question_count : ℕ
  pub answer_count : ℕ
  pub authority_count : ℕ
  pub additional_count : ℕ

unfoldable pub new_query : ℕ → DnsHeader
new_query id = record {
  id = id;
  is_response = false;
  opcode = OpCode.query;
  authoritative = false;
  truncated = false;
  recursion_desired = true;
  recursion_available = false;
  authentic_data = false;
  checking_disabled = false;
  response_code = ResponseCode.no_error;
  question_count = 0;
  answer_count = 0;
  authority_count = 0;
  additional_count = 0;
}

-- `(flags & mask) != 0`
abbrev pub has_bit : ℕ → ℕ → Bool
has_bit flags mask = not (bit_and flags mask == 0)

-- `if test { flags |= mask; }`
abbrev pub set_bit : Bool → ℕ → ℕ → ℕ
set_bit test mask flags = if test then bit_or flags mask else flags

-- `(opcode & 0x0F) << 3` on a `u8` cannot overflow.
unfoldable pub flags1 : DnsHeader → ℕ
flags1 h = set_bit h.recursion_desired 0x01 (
    set_bit h.truncated 0x02 (
      set_bit h.authoritative 0x04
        (bit_or (set_bit h.is_response 0x80 0) (bit_and (OpCode.to_u8 h.opcode) 0x0F * 8))))

unfoldable pub flags2 : DnsHeader → ℕ
flags2 h =
    bit_or
      (set_bit h.checking_disabled 0x10
        (set_bit h.authentic_data 0x20 (set_bit h.recursion_available 0x80 0)))
      (bit_and (ResponseCode.to_u8 h.response_code) 0x0F)

unfoldable pub parse : Bytes → Parser DnsHeader
parse bytes = do
  o ← offset
  require (leb (o + 12) (length bytes)) buffer_too_short
  id ← u16_at bytes o
  flags1 ← index bytes (o + 2)
  flags2 ← index bytes (o + 3)
  question_count ← u16_at bytes (o + 4)
  answer_count ← u16_at bytes (o + 6)
  authority_count ← u16_at bytes (o + 8)
  additional_count ← u16_at bytes (o + 10)
  set_offset (o + 12)
  pure (record {
    id = id;
    is_response = has_bit flags1 0x80;
    opcode = OpCode.from_u8 (bit_and (flags1 / 8) 0x0F);
    authoritative = has_bit flags1 0x04;
    truncated = has_bit flags1 0x02;
    recursion_desired = has_bit flags1 0x01;
    recursion_available = has_bit flags2 0x80;
    authentic_data = has_bit flags2 0x20;
    checking_disabled = has_bit flags2 0x10;
    response_code = ResponseCode.from_u8 (bit_and flags2 0x0F);
    question_count = question_count;
    answer_count = answer_count;
    authority_count = authority_count;
    additional_count = additional_count;
  })

-- The bytes that `serialize` pushes.
unfoldable pub serialize : DnsHeader → Bytes
serialize h =
    to_be16 h.id
    ++ (flags1 h
        ∷ flags2 h
        ∷ (to_be16 h.question_count
            ++ (to_be16 h.answer_count
                ++ (to_be16 h.authority_count ++ to_be16 h.additional_count))))
