-- ===== src/Server/Answers/Replies.antt =====
-- What a client reads back from a reply: the messages that answer a query, and those that fit the wire.
use rust_dns_server.Base.{
  ◌<◌, ◌≡◌, true, List, [], ◌∷◌, append-nil, arith, length, Bytes, All, IsU16,
}
use rust_dns_server.Text.{TextLib}
use rust_dns_server.Reader.{ok}
use rust_dns_server.Codes.ResponseCode
use rust_dns_server.Codes.ResponseCode.{ResponseCode}
use rust_dns_server.Record
use rust_dns_server.Record.{DnsRecord}
use rust_dns_server.Message
use rust_dns_server.Message.{DnsMessage, counted, make_response, make_error_response}
use rust_dns_server.Server.{Resolved, records, failed, fill}
use rust_dns_server.Action
use rust_dns_server.Action.{Action, Answer}

-- The code and the answers that stand for a resolver's result.
abbrev pub code_of : Resolved → ResponseCode
code_of (records rs) = ResponseCode.no_error
code_of (failed code) = code

abbrev pub answers_of : Resolved → List DnsRecord
answers_of (records rs) = rs
answers_of (failed code) = []

-- A resolver that ends so has that result.
abbrev pub ended : Resolved → Answer (List DnsRecord)
ended (records rs) = Action.done rs
ended (failed code) = Action.failed code

-- `m` is the reply to `query` with the given code and answers.
pub record Replies (query m : DnsMessage) (code : ResponseCode) (answers : List DnsRecord)
    : Type 0 where
  pub same_id : m.header.id ≡ query.header.id
  pub response : m.header.is_response ≡ true
  pub available : m.header.recursion_available ≡ true
  pub same_desired : m.header.recursion_desired ≡ query.header.recursion_desired
  pub same_opcode : m.header.opcode ≡ query.header.opcode
  pub same_questions : m.questions ≡ query.questions
  pub the_code : m.header.response_code ≡ code
  pub the_answers : m.answers ≡ answers
  pub no_authorities : m.authorities ≡ []
  pub no_additional : m.additional ≡ []

pub fill-Replies :
    (query : DnsMessage) (r : Resolved)
    → Replies query (fill (make_response query) r) (code_of r) (answers_of r)
unfolding fill make_response
fill-Replies query (records []) = ground arith
fill-Replies query (records (x ∷ xs)) = ground arith
fill-Replies query (failed code) = ground arith

pub counted-Replies :
    (query m : DnsMessage) {code : ResponseCode} {answers : List DnsRecord}
    → Replies query m code answers
    → Replies query (record m { header = counted m }) code answers
unfolding counted
counted-Replies query m h = ground arith

pub of_received :
    (query m : DnsMessage) {code : ResponseCode} {answers : List DnsRecord}
    → Replies (record query { header = counted query }) m code answers
    → Replies query m code answers
unfolding counted
of_received query m h = ground arith

module _ ⦃t : TextLib⦄ where
  -- A resolver's result that fits the wire.
  pub record IsAnswer (r : Resolved) : Type 0 where
    pub code_fits : ResponseCode.to_u8 (code_of r) < 16
    pub code_known : ResponseCode.IsKnown (code_of r)
    pub answers_fit : All Record.Wire.IsWire (answers_of r)
    pub answers_count : IsU16 (length (answers_of r))

  pub reply-IsWire :
      (query : DnsMessage) (r : Resolved)
      → Message.Wire.IsWire query
      → IsAnswer r
      → Message.Wire.IsWire (record {
        header = record (query.header) {
          is_response = true;
          recursion_available = true;
          response_code = code_of r;
        };
        questions = query.questions;
        answers = answers_of r;
        authorities = [];
        additional = [];
      })
  reply-IsWire query r v h = record {
    id_fits = v.id_fits;
    opcode_fits = v.opcode_fits;
    opcode_known = v.opcode_known;
    code_fits = h.code_fits;
    code_known = h.code_known;
    questions_fit = v.questions_fit;
    answers_fit = h.answers_fit;
    authorities_fit = tt;
    additional_fit = tt;
    questions_count = v.questions_count;
    answers_count = h.answers_count;
    authorities_count = omega arith;
    additional_count = omega arith;
  }

  pub fill-IsWire :
      (query : DnsMessage) (r : Resolved)
      → Message.Wire.IsWire query
      → IsAnswer r
      → Message.Wire.IsWire (fill (make_response query) r)
  unfolding fill make_response
  fill-IsWire query (records []) v h = reply-IsWire query (records []) v h
  fill-IsWire query (records (x ∷ xs)) v h = reply-IsWire query (records (x ∷ xs)) v h
  fill-IsWire query (failed code) v h = reply-IsWire query (failed code) v h

  -- A client that parses the bytes reads a reply to the query with the given code and answers.
  abbrev pub ReadsAs : DnsMessage → ResponseCode → List DnsRecord → Bytes → Type 0
  ReadsAs query code answers bytes =
      (m : DnsMessage) × (Message.parse bytes ≡ ok m (length bytes)) × Replies query m code answers

  pub read_back :
      (query m : DnsMessage) {code : ResponseCode} {answers : List DnsRecord}
      → Message.Wire.IsWire m
      → Replies query m code answers
      → ReadsAs query code answers (Message.serialize m)
  read_back query m v h = (
    record m { header = counted m },
    rw (append-nil) at (Message.Wire.parse-serialize_message m [] v),
    counted-Replies query m h,
  )

  pub received-IsWire :
      (query : DnsMessage)
      → Message.Wire.IsWire query
      → Message.Wire.IsWire (record query { header = counted query })
  unfolding counted
  received-IsWire query v = record {
    id_fits = v.id_fits;
    opcode_fits = v.opcode_fits;
    opcode_known = v.opcode_known;
    code_fits = v.code_fits;
    code_known = v.code_known;
    questions_fit = v.questions_fit;
    answers_fit = v.answers_fit;
    authorities_fit = v.authorities_fit;
    additional_fit = v.additional_fit;
    questions_count = v.questions_count;
    answers_count = v.answers_count;
    authorities_count = v.authorities_count;
    additional_count = v.additional_count;
  }

  pub parse-sent :
      (query : DnsMessage)
      → Message.Wire.IsWire query
      → Message.parse (Message.serialize query)
        ≡ ok (record query { header = counted query }) (length (Message.serialize query))
  parse-sent query v = rw append-nil at (Message.Wire.parse-serialize_message query [] v)
