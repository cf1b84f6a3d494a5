-- ===== src/Tests/Servers.antt =====
-- The server: its theorems at concrete inputs.
use rust_dns_server.Base.{
  ℕ, ◌+◌, ◌≡◌, ◌≢◌, zero, suc, refl, some, List, [], ◌∷◌, ◌++◌, arith, length, ◌%◌, take, drop,
  Bytes, All,
}
use rust_dns_server.Text.{ascii_text}
use rust_dns_server.Reader.{ok}
use rust_dns_server.Name.{DnsName}
use rust_dns_server.Name
use rust_dns_server.Rdata
use rust_dns_server.Rdata.{txt}
use rust_dns_server.Codes.RecordType.{RecordType}
use rust_dns_server.Codes.ResponseCode
use rust_dns_server.Codes.OpCode
use rust_dns_server.Header
use rust_dns_server.Question
use rust_dns_server.Record
use rust_dns_server.Record.{DnsRecord}
use rust_dns_server.Message
use rust_dns_server.Message.{DnsMessage, counted}
use rust_dns_server.Server.{records, reply, handle_query, tcp_read, tcp_frame, udp_send, truncate}
use rust_dns_server.Action.{Action, done}
use rust_dns_server.Server.Answers.{IsAnswer, ReadsAs, handle_query-answers}
use rust_dns_server.Server.Framing.{tcp_read_long, udp_send_long}
use rust_dns_server.Tests.Data.{question, mail, message}
use rust_dns_server.Tests.Messages.{mail-IsWire, message-IsWire}

-- A resolver that counts its calls, and answers each with one record.
abbrev resolve : DnsName → RecordType → Action ℕ (List DnsRecord)
resolve name record_type calls = (done (mail ∷ []), calls + 1)

pub mail-IsAnswer : IsAnswer (records (mail ∷ []))
unfolding ResponseCode.to_u8 ResponseCode.from_u8
mail-IsAnswer = record {
  code_fits = omega arith;
  code_known = refl;
  answers_fit = (mail-IsWire, tt);
  answers_count = omega arith;
}

handle_query-answers_example :
    (bytes : Bytes) × (handle_query resolve (Message.serialize message) 6 ≡ (reply bytes, 7))
    × ReadsAs message ResponseCode.no_error (mail ∷ []) bytes
handle_query-answers_example =
    handle_query-answers resolve message question [] 6 7 (records (mail ∷ [])) message-IsWire refl
      refl mail-IsAnswer

abbrev no_question : DnsMessage
no_question = record message { questions = []; answers = [] }

no_question-IsWire : Message.Wire.IsWire no_question
unfolding OpCode.to_u8 OpCode.from_u8 ResponseCode.to_u8 ResponseCode.from_u8
no_question-IsWire = record {
  id_fits = omega arith;
  opcode_fits = omega arith;
  opcode_known = refl;
  code_fits = omega arith;
  code_known = refl;
  questions_fit = tt;
  answers_fit = tt;
  authorities_fit = tt;
  additional_fit = tt;
  questions_count = omega arith;
  answers_count = omega arith;
  authorities_count = omega arith;
  additional_count = omega arith;
}

abbrev times {ℓ} : {A : Type ℓ} → ℕ → A → List A
times zero x = []
times (suc n) x = x ∷ times n x

length-times {ℓ} : {A : Type ℓ} (n : ℕ) (x : A) → length (times n x) ≡ n
length-times zero x = refl
length-times (suc n) x = omega (arith, length-times n x)

-- 65537 bytes.
abbrev long_bytes : Bytes
long_bytes = times 65537 7

tcp_read_long_example :
    (tcp_read (tcp_frame long_bytes ++ [])
      ≡ some (
        take (length long_bytes % 65536) (long_bytes ++ []),
        drop (length long_bytes % 65536) (long_bytes ++ []),
      ))
    × (take (length long_bytes % 65536) (long_bytes ++ []) ≢ long_bytes)
tcp_read_long_example = tcp_read_long long_bytes [] (omega (arith, length-times {A = ℕ} 65537 7))

times-IsWire : (n : ℕ) (r : DnsRecord) → Record.Wire.IsWire r → All Record.Wire.IsWire (times n r)
times-IsWire zero r v = tt
times-IsWire (suc n) r v = (v, times-IsWire n r v)

-- Twenty answers: more than UDP carries.
abbrev big : DnsMessage
big = record message { answers = times 20 mail }

big-IsWire : Message.Wire.IsWire big
unfolding OpCode.to_u8 OpCode.from_u8 ResponseCode.to_u8 ResponseCode.from_u8
big-IsWire = record {
  id_fits = omega arith;
  opcode_fits = omega arith;
  opcode_known = refl;
  code_fits = omega arith;
  code_known = refl;
  questions_fit = message-IsWire.questions_fit;
  answers_fit = times-IsWire 20 mail mail-IsWire;
  authorities_fit = tt;
  additional_fit = tt;
  questions_count = omega arith;
  answers_count = omega arith;
  authorities_count = omega arith;
  additional_count = omega arith;
}

length-big : length (Message.serialize big) ≡ 584
unfolding Message.serialize counted Message.write_questions Message.write_records Header.serialize
    Question.serialize Record.serialize Rdata.serialize Name.to_wire Name.labels_to_wire
length-big = refl

udp_send_long_example :
    (bytes : Bytes) × (udp_send (reply (Message.serialize big)) ≡ reply bytes)
    × (Message.parse bytes
        ≡ ok (record (truncate big) { header = counted (truncate big) }) (length bytes))
udp_send_long_example = udp_send_long big big-IsWire (omega (arith, length-big))
