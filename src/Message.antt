-- ===== src/Message.antt =====
-- `DnsMessage` of src/dns/message.rs.
pub mod Shape
pub mod Wire
use rust_dns_server.Base.{ℕ, zero, suc, ◌%◌, Bool, true, List, [], ◌∷◌, ◌++◌, length, Bytes}
use rust_dns_server.Text.{TextLib}
use rust_dns_server.Reader.{Parser, Outcome, ok, err, panic, stuck, bind, ◌>>=◌, pure}
use rust_dns_server.Codes.ResponseCode.{ResponseCode}
use rust_dns_server.Header
use rust_dns_server.Header.{DnsHeader}
use rust_dns_server.Question
use rust_dns_server.Question.{DnsQuestion}
use rust_dns_server.Record
use rust_dns_server.Record.{DnsRecord}

pub record DnsMessage : Type 0 where
  pub header : DnsHeader
  pub questions : List DnsQuestion
  pub answers : List DnsRecord
  pub authorities : List DnsRecord
  pub additional : List DnsRecord

unfoldable pub new_query : ℕ → DnsMessage
new_query id = record {
  header = Header.new_query id;
  questions = [];
  answers = [];
  authorities = [];
  additional = [];
}

-- `for question in &self.questions { question.serialize(&mut buf); }`
unfoldable pub write_questions : List DnsQuestion → Bytes
write_questions [] = []
write_questions (q ∷ qs) = Question.serialize q ++ write_questions qs

unfoldable pub write_records : List DnsRecord → Bytes
write_records [] = []
write_records (r ∷ rs) = Record.serialize r ++ write_records rs

-- The header with the counts of the sections, each `len() as u16`.
unfoldable pub counted : DnsMessage → DnsHeader
counted m = record (m.header) {
  question_count = length m.questions % 65536;
  answer_count = length m.answers % 65536;
  authority_count = length m.authorities % 65536;
  additional_count = length m.additional % 65536;
}

unfoldable pub serialize : DnsMessage → Bytes
serialize m =
    Header.serialize (counted m)
    ++ (write_questions m.questions
        ++ (write_records m.answers ++ (write_records m.authorities ++ write_records m.additional)))

unfoldable pub make_response : DnsMessage → DnsMessage
make_response m = record {
  header = record (m.header) { is_response = true; recursion_available = true };
  questions = m.questions;
  answers = [];
  authorities = [];
  additional = [];
}

unfoldable pub make_error_response : DnsMessage → ResponseCode → DnsMessage
make_error_response m code =
    let response = make_response m in
    record response { header = record (response.header) { response_code = code } }

-- `match result { Ok(a) => next, Err(_) => break }` in a loop that leaves `kept`.
abbrev pub or_stop : {A B : Type 0} → Outcome A → B → (A → Parser B) → Outcome B
or_stop (ok a o) kept next = next a o
or_stop (err e o) kept next = ok kept o
or_stop panic kept next = panic
or_stop stuck kept next = stuck

module _ ⦃t : TextLib⦄ where
  -- `for _ in 0..count { questions.push(DnsQuestion::parse(data, &mut offset)?); }`
  unfoldable pub parse_questions : ℕ → Bytes → List DnsQuestion → Parser (List DnsQuestion)
  parse_questions zero bytes done = pure done
  parse_questions (suc count) bytes done = do
    q ← Question.parse bytes
    parse_questions count bytes (done ++ (q ∷ []))

  -- The loop over a section: an error ends it, and the records before are kept. The next section
  -- is read from the offset that the error left behind.
  unfoldable pub parse_records : ℕ → Bytes → List DnsRecord → Parser (List DnsRecord)
  parse_records zero bytes done o = ok done o
  parse_records (suc count) bytes done o =
      or_stop (Record.parse bytes o) done (λ r. parse_records count bytes (done ++ (r ∷ [])))

  unfoldable pub parse : Bytes → Outcome DnsMessage
  parse bytes = bind (Header.parse bytes 0) λ header. do
    questions ← parse_questions header.question_count bytes []
    answers ← parse_records header.answer_count bytes []
    authorities ← parse_records header.authority_count bytes []
    additional ← parse_records header.additional_count bytes []
    pure (record {
      header = header;
      questions = questions;
      answers = answers;
      authorities = authorities;
      additional = additional;
    })
