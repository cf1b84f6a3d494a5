-- ===== src/Tests/Messages.antt =====
-- Records and messages: runs, and the theorems at concrete inputs.
use rust_dns_server.Base.{
  ℕ, zero, suc, ◌+◌, ◌≤◌, ◌<◌, ◌≡◌, ◌≢◌, ◌↔◌, refl, List, [], ◌∷◌, ◌++◌, arith, length, Bytes,
  At-here, All,
}
use rust_dns_server.Text.{Text, ascii_text}
use rust_dns_server.Reader.{Returns, ok, panic, stuck}
use rust_dns_server.Name
use rust_dns_server.Name.Wire as NameWire
use rust_dns_server.Codes.RecordType
use rust_dns_server.Codes.RecordClass
use rust_dns_server.Codes.OpCode
use rust_dns_server.Codes.ResponseCode
use rust_dns_server.Header
use rust_dns_server.Rdata
use rust_dns_server.Rdata.{txt}
use rust_dns_server.Rdata.Panic.{parse-panics_nsec, parse-panics_rrsig}
use rust_dns_server.Rdata.Safety.{parse-Returns_rdata}
use rust_dns_server.Rdata.Pieces.{chunks, pieces_of, pieces, join, IsShort, parse-serialize_texts}
use rust_dns_server.Rdata.Wire.{parse-serialize_rdata}
use rust_dns_server.Question
use rust_dns_server.Record
use rust_dns_server.Message
use rust_dns_server.Message.{DnsMessage, counted}
use rust_dns_server.Tests.Data.{www, www_ab, header, question, mail, address, message}

pub www_ab-IsWire : NameWire.IsWire www_ab
unfolding Name.to_wire Name.labels_to_wire
www_ab-IsWire = ((omega arith, omega arith, refl), ((omega arith, omega arith, refl), tt))

pub question-IsWire : Question.Wire.IsWire question
unfolding RecordType.to_u16 RecordType.from_u16 RecordClass.to_u16 RecordClass.from_u16
question-IsWire = record {
  name_fits = www_ab-IsWire;
  type_fits = omega arith;
  type_known = refl;
  class_fits = omega arith;
  class_known = refl;
}

pub mail-IsWire : Record.Wire.IsWire mail
unfolding RecordType.to_u16 RecordType.from_u16 RecordClass.to_u16 RecordClass.from_u16
    Rdata.serialize Name.to_wire Name.labels_to_wire
mail-IsWire = record {
  name_fits = www_ab-IsWire;
  type_fits = omega arith;
  type_known = refl;
  class_fits = omega arith;
  class_known = refl;
  ttl_fits = omega arith;
  rdata_fits = (omega arith, www_ab-IsWire);
  rdata_short = omega arith;
}

pub address-IsWire : Record.Wire.IsWire address
unfolding RecordType.to_u16 RecordType.from_u16 RecordClass.to_u16 RecordClass.from_u16
    Rdata.serialize
address-IsWire = record {
  name_fits = www_ab-IsWire;
  type_fits = omega arith;
  type_known = refl;
  class_fits = omega arith;
  class_known = refl;
  ttl_fits = omega arith;
  rdata_fits = tt;
  rdata_short = omega arith;
}

pub message-IsWire : Message.Wire.IsWire message
unfolding OpCode.to_u8 OpCode.from_u8 ResponseCode.to_u8 ResponseCode.from_u8
message-IsWire = record {
  id_fits = omega arith;
  opcode_fits = omega arith;
  opcode_known = refl;
  code_fits = omega arith;
  code_known = refl;
  questions_fit = (question-IsWire, tt);
  answers_fit = (mail-IsWire, (address-IsWire, tt));
  authorities_fit = tt;
  additional_fit = tt;
  questions_count = omega arith;
  answers_count = omega arith;
  authorities_count = omega arith;
  additional_count = omega arith;
}

header-IsWire : Header.Wire.IsWire header
unfolding OpCode.to_u8 OpCode.from_u8 ResponseCode.to_u8 ResponseCode.from_u8
header-IsWire = record {
  id_fits = omega arith;
  opcode_fits = omega arith;
  opcode_known = refl;
  code_fits = omega arith;
  code_known = refl;
  questions_fit = omega arith;
  answers_fit = omega arith;
  authorities_fit = omega arith;
  additional_fit = omega arith;
}

-- A name of five bytes in a buffer of twenty-five: a signer's name that ends behind its record.
abbrev cut_name : Bytes
cut_name =
    0 ∷ 1 ∷ 8 ∷ 2 ∷ 0 ∷ 0 ∷ 0 ∷ 0 ∷ 0 ∷ 0 ∷ 0 ∷ 9 ∷ 0 ∷ 0 ∷ 0 ∷ 1 ∷ 0 ∷ 7 ∷ 3 ∷ b'w' ∷ b'w' ∷ b'w'
    ∷ 0 ∷ 5 ∷ 5 ∷ []

runs : Unit {0}
unfolding Name.read_end Name.read_pointer Name.read_label Name.round Name.parse_loop Name.parse
runs = tt

cut_name_run : Name.parse cut_name 18 ≡ ok (record { labels = www ∷ [] }) 23
unfolding runs
cut_name_run = refl

parse-serialize_message_example :
    Message.parse (Message.serialize message ++ (7 ∷ []))
    ≡ ok (record message { header = counted message }) (length (Message.serialize message))
parse-serialize_message_example =
    Message.Wire.parse-serialize_message message (7 ∷ []) message-IsWire

-- A record whose data ends inside its name.
nsec_run : Rdata.Parse.parse RecordType.nsec cut_name 2 18 ≡ panic
unfolding runs Rdata.Parse.parse Rdata.Parse.parse_body Rdata.Parse.parse_nsec
nsec_run = refl

message_read :
    Message.parse (Message.serialize message ++ (7 ∷ []))
    ≡ ok (record message { header = counted message }) (length (Message.serialize message))
message_read = Message.Wire.parse-serialize_message message (7 ∷ []) message-IsWire

parse-ne-stuck_example : Message.parse cut_name ≢ stuck
parse-ne-stuck_example = Message.Shape.parse-ne-stuck cut_name

parse-serialize_record_example :
    Record.parse (Record.serialize mail ++ (7 ∷ [])) 0
    ≡ ok mail (0 + length (Record.serialize mail))
parse-serialize_record_example =
    Record.Wire.parse-serialize_record (Record.serialize mail ++ (7 ∷ [])) 0 mail mail-IsWire
      (At-here (Record.serialize mail) (7 ∷ []))

parse-serialize_rdata_example :
    Rdata.Parse.parse RecordType.mx
      (Rdata.serialize mail.rdata ++ (7 ∷ []))
      (length (Rdata.serialize mail.rdata))
      0
    ≡ ok mail.rdata (0 + length (Rdata.serialize mail.rdata))
parse-serialize_rdata_example =
    parse-serialize_rdata (Rdata.serialize mail.rdata ++ (7 ∷ [])) 0 RecordType.mx mail.rdata
      (omega arith, www_ab-IsWire) (At-here (Rdata.serialize mail.rdata) (7 ∷ []))

parse-Returns_rdata_example :
    Returns
      (λ r o'. (o' ≡ 0 + 20) × (o' ≤ length cut_name))
      (Rdata.Parse.parse RecordType.soa cut_name 20 0)
parse-Returns_rdata_example = parse-Returns_rdata cut_name RecordType.soa 20 0 (λ s. s)

parse-panics_nsec_example :
    (Rdata.Parse.parse RecordType.nsec cut_name 2 18 ≡ panic) ↔ (18 + 2 < 23)
parse-panics_nsec_example =
    parse-panics_nsec cut_name 2 18 (record { labels = www ∷ [] }) 23 (omega arith) cut_name_run

parse-panics_rrsig_example :
    (Rdata.Parse.parse RecordType.rrsig cut_name 20 0 ≡ panic) ↔ (0 + 20 < 23)
parse-panics_rrsig_example =
    parse-panics_rrsig cut_name 20 0 (record { labels = www ∷ [] }) 23 (omega arith) (omega arith)
      cut_name_run

abbrev letters : ℕ → Text
letters zero = []
letters (suc n) = 97 ∷ letters n

abbrev long_text : List Text
long_text = letters 300 ∷ []

long_run : pieces long_text ≡ letters 255 ∷ letters 45 ∷ []
unfolding chunks pieces_of pieces
long_run = refl

parse-serialize_texts_example :
    (Rdata.Parse.parse RecordType.txt
        (Rdata.serialize (txt long_text) ++ (7 ∷ []))
        (length (Rdata.serialize (txt long_text)))
        0
      ≡ ok (txt (pieces long_text)) (0 + length (Rdata.serialize (txt long_text))))
    × (join (pieces long_text) ≡ join long_text)
    × All IsShort (pieces long_text)
    × (Rdata.serialize (txt (pieces long_text)) ≡ Rdata.serialize (txt long_text))
parse-serialize_texts_example =
    parse-serialize_texts (Rdata.serialize (txt long_text) ++ (7 ∷ [])) 0 long_text
      (rw long_run (refl, (refl, tt))) (At-here (Rdata.serialize (txt long_text)) (7 ∷ []))
