-- ===== src/Server/Answers.antt =====
-- The reply to a query: what a client reads back from it.
mod Replies
pub use Replies.*
use rust_dns_server.Base.{
  ◌<◌, ◌≡◌, refl, true, List, [], ◌∷◌, append-nil, arith, length, Bytes, All, IsU16,
}
use rust_dns_server.Text.{TextLib}
use rust_dns_server.Reader.{ok}
use rust_dns_server.Name.{DnsName}
use rust_dns_server.Codes.RecordType.{RecordType}
use rust_dns_server.Codes.ResponseCode
use rust_dns_server.Codes.ResponseCode.{ResponseCode}
use rust_dns_server.Record
use rust_dns_server.Record.{DnsRecord}
use rust_dns_server.Question.{DnsQuestion}
use rust_dns_server.Message
use rust_dns_server.Message.{DnsMessage, counted, make_response, make_error_response}
use rust_dns_server.Server.{Resolved, records, failed, reply, fill, respond, answer, handle_query}
use rust_dns_server.Action
use rust_dns_server.Action.{Action, Answer}

module _ ⦃t : TextLib⦄ where
  respond-ended :
      (query : DnsMessage) (r : Resolved)
      → respond query (ended r) ≡ reply (Message.serialize (fill (make_response query) r))
  unfolding respond
  respond-ended query (records rs) = refl
  respond-ended query (failed code) = refl

  module _ {S : Type 0} (resolve : DnsName → RecordType → Action S (List DnsRecord)) where
    answer_first :
        (m : DnsMessage) (ls : List DnsQuestion) (q : DnsQuestion) (qs : List DnsQuestion)
        (s s' : S) (r : Resolved)
        → ls ≡ q ∷ qs
        → resolve q.name q.record_type s ≡ (ended r, s')
        → answer resolve m ls s ≡ (reply (Message.serialize (fill (make_response m) r)), s')
    unfolding answer
    answer_first m ls q qs s s' r e k = rw (e, answer, k, respond-ended m r) refl

    answer_none :
        (m : DnsMessage) (ls : List DnsQuestion) (s : S)
        → ls ≡ []
        → answer resolve m ls s
          ≡ (reply (Message.serialize (make_error_response m ResponseCode.format_error)), s)
    unfolding answer
    answer_none m ls s e = rw e refl

    -- To a well-formed query with a question, the server sends bytes that read back as the reply: the
    -- query's id, opcode and questions, the response bits set, the resolver's code and, if it resolved,
    -- exactly its records, in order, with the state that the resolver left. The resolver is asked for
    -- the first question; it must end with records or a code, and these must fit the wire.
    pub handle_query-answers :
        (query : DnsMessage) (q : DnsQuestion) (qs : List DnsQuestion) (s s' : S) (r : Resolved)
        → Message.Wire.IsWire query
        → query.questions ≡ q ∷ qs
        → resolve q.name q.record_type s ≡ (ended r, s')
        → IsAnswer r
        → (bytes : Bytes) × (handle_query resolve (Message.serialize query) s ≡ (reply bytes, s'))
          × ReadsAs query (code_of r) (answers_of r) bytes
    unfolding handle_query
    handle_query-answers query q qs s s' r v e k h =
        let received = record query { header = counted query } in
        (
          Message.serialize (fill (make_response received) r),
          rw (parse-sent query v, handle_query)
              (answer_first received query.questions q qs s s' r e k),
          read_back query (fill (make_response received) r)
              (fill-IsWire received r (received-IsWire query v) h)
              (of_received query _ (fill-Replies received r)),
        )

    -- A well-formed query without a question is answered with a format error, and the resolver is not
    -- asked.
    pub handle_query_empty :
        (query : DnsMessage) (s : S)
        → Message.Wire.IsWire query
        → query.questions ≡ []
        → (bytes : Bytes) × (handle_query resolve (Message.serialize query) s ≡ (reply bytes, s))
          × ReadsAs query ResponseCode.format_error [] bytes
    unfolding handle_query
    handle_query_empty query s v e =
        let received = record query { header = counted query } in
        let m = make_error_response received ResponseCode.format_error in
        let refusal = failed ResponseCode.format_error in
        let fits : IsAnswer refusal =
          unfold ResponseCode.to_u8 ResponseCode.from_u8 in
          record {
            code_fits = omega arith;
            code_known = refl;
            answers_fit = tt;
            answers_count = omega arith;
          } in
        (
          Message.serialize m,
          rw (parse-sent query v, handle_query) (answer_none received query.questions s e),
          read_back query m
              (unfold fill make_error_response in
                fill-IsWire received refusal (received-IsWire query v) fits)
              (unfold fill make_error_response in
                of_received query _ (fill-Replies received refusal)),
        )
