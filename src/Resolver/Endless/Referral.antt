-- ===== src/Resolver/Endless/Referral.antt =====
-- A referral to one of two name servers, as it is read from the wire.
use rust_dns_server.Base.{
  ◌≡◌, refl, ap, ◌∙◌, Bool, true, false, [], ◌∷◌, length, take, arith, IsU16,
}
use rust_dns_server.Text.{ascii_text}
use rust_dns_server.Reader.{ok}
use rust_dns_server.Name
use rust_dns_server.Name.{DnsName, name_eq, labels_eq, text_eq}
use rust_dns_server.Header
use rust_dns_server.Rdata
use rust_dns_server.Codes.OpCode
use rust_dns_server.Codes.ResponseCode
use rust_dns_server.Codes.RecordClass
use rust_dns_server.Codes.RecordType
use rust_dns_server.Codes.RecordType.{RecordType, type_eq}
use rust_dns_server.Record
use rust_dns_server.Record.{DnsRecord}
use rust_dns_server.Question
use rust_dns_server.Message
use rust_dns_server.Message.{DnsMessage, counted}
use rust_dns_server.Server.Answers.{parse-sent}

abbrev pub server_name : Bool → DnsName
server_name true = record { labels = (b'a' ∷ []) ∷ [] }
server_name false = record { labels = (b'b' ∷ []) ∷ [] }

-- "Ask `server_name b`", with its address.
abbrev pub referral : Bool → DnsMessage
referral b = record {
  header = record (Header.new_query 7) { is_response = true };
  questions = [];
  answers = [];
  authorities =
      record {
        name = Name.root;
        record_type = RecordType.ns;
        record_class = RecordClass.in_class;
        ttl = 60;
        rdata = Rdata.ns (server_name b);
      }
      ∷ [];
  additional =
      record {
        name = server_name b;
        record_type = RecordType.a;
        record_class = RecordClass.in_class;
        ttl = 60;
        rdata = Rdata.a (record { octet0 = 192; octet1 = 0; octet2 = 2; octet3 = 1 });
      }
      ∷ [];
}

pub server_name-IsWire : (b : Bool) → Name.Wire.IsWire (server_name b)
server_name-IsWire true = ((omega arith, omega arith, refl), tt)
server_name-IsWire false = ((omega arith, omega arith, refl), tt)

pub root-IsWire : Name.Wire.IsWire Name.root
root-IsWire = tt

pub short : (b : Bool) → IsU16 (length (Rdata.serialize (Rdata.ns (server_name b))))
unfolding Rdata.serialize Name.to_wire Name.labels_to_wire
short true = omega arith
short false = omega arith

pub referral-IsWire : (b : Bool) → Message.Wire.IsWire (referral b)
unfolding OpCode.to_u8 OpCode.from_u8 ResponseCode.to_u8 ResponseCode.from_u8 RecordType.to_u16
    RecordType.from_u16 RecordClass.to_u16 RecordClass.from_u16 Rdata.serialize Name.to_wire
    Name.labels_to_wire Header.new_query
referral-IsWire b = record {
  id_fits = omega arith;
  opcode_fits = omega arith;
  opcode_known = refl;
  code_fits = omega arith;
  code_known = refl;
  questions_fit = tt;
  answers_fit = tt;
  authorities_fit = (
    record {
      name_fits = root-IsWire;
      type_fits = omega arith;
      type_known = refl;
      class_fits = omega arith;
      class_known = refl;
      ttl_fits = omega arith;
      rdata_fits = server_name-IsWire b;
      rdata_short = short b;
    },
    tt,
  );
  additional_fit = (
    record {
      name_fits = server_name-IsWire b;
      type_fits = omega arith;
      type_known = refl;
      class_fits = omega arith;
      class_known = refl;
      ttl_fits = omega arith;
      rdata_fits = tt;
      rdata_short = omega arith;
    },
    tt,
  );
  questions_count = omega arith;
  answers_count = omega arith;
  authorities_count = omega arith;
  additional_count = omega arith;
}

pub whole : (b : Bool) → take 4096 (Message.serialize (referral b)) ≡ Message.serialize (referral b)
unfolding Message.serialize counted Message.write_questions Message.write_records Header.serialize
    Question.serialize Record.serialize Rdata.serialize Name.to_wire Name.labels_to_wire
    Header.new_query
whole true = refl
whole false = refl

abbrev pub received : Bool → DnsMessage
received b = record (referral b) { header = counted (referral b) }

pub heard :
    (b : Bool)
    → Message.parse (take 4096 (Message.serialize (referral b)))
      ≡ ok (received b) (length (Message.serialize (referral b)))
heard b = ap Message.parse (whole b) ∙ parse-sent (referral b) (referral-IsWire b)
