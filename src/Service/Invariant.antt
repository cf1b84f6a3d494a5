-- ===== src/Service/Invariant.antt =====
-- What the resolver keeps of the state that the tasks share, every task keeps.
use rust_dns_server.Base.{
  inl, inr, Bool, true, false, not, Option, none, some, List, [], ◌∷◌, Bytes, Option-cases,
  if◌then◌else◌,
}
use rust_dns_server.Text.{Text, TextLib, ascii}
use rust_dns_server.Name.{DnsName, text_eq}
use rust_dns_server.Codes.RecordType.{RecordType}
use rust_dns_server.Record.{DnsRecord}
use rust_dns_server.Question.{DnsQuestion}
use rust_dns_server.Message
use rust_dns_server.Message.{DnsMessage}
use rust_dns_server.Zone.{or_else}
use rust_dns_server.Action.{Action}
use rust_dns_server.Server.{answer, handle_query, udp_task, tcp_task, tcp_read}
use rust_dns_server.Server.Ends.{Outcome-cases}
use rust_dns_server.Doh
use rust_dns_server.Doh.{
  dns_message_type, plain, Method, HttpRequest, HttpResult, first_question, process_dns_query,
  handle_get, handle_post, route, handle_request, dns_param, split_on,
}
use rust_dns_server.Service.{Task, udp_query, tcp_query, https_query, run_tcp, run_task}

if_keeps :
    {A : Type 0} {S : Type 0} (P : S → Type 0) (b : Bool) (x y : A × S)
    → P x.1
    → P y.1
    → P (if b then x else y).1
if_keeps P true x y h k = h
if_keeps P false x y h k = k

module _ ⦃t : TextLib⦄ (decode : Text → Option Bytes) {S : Type 0}
    (resolve : DnsName → RecordType → Action S (List DnsRecord)) (P : S → Type 0)
    (keeps : (name : DnsName) (record_type : RecordType) (s : S)
      → P s
      → P (resolve name record_type s).1) where
  answer_keeps :
      (query : DnsMessage) (qs : List DnsQuestion) (s : S) → P s → P (answer resolve query qs s).1
  unfolding answer
  answer_keeps query [] s h = h
  answer_keeps query (q ∷ qs) s h = keeps q.name q.record_type s h

  handle_query_keeps : (bytes : Bytes) (s : S) → P s → P (handle_query resolve bytes s).1
  unfolding handle_query
  handle_query_keeps bytes s h =
      elim (Outcome-cases (Message.parse bytes) (Message.Shape.parse-ne-stuck bytes)) [
        | inl (query, o, e) ↦ rw (handle_query, e) (answer_keeps query query.questions s h)
        | inr (inl (d, o, e)) ↦ rw (handle_query, e) h
        | inr (inr e) ↦ rw (handle_query, e) h
      ]

  first_question_keeps :
      (query : DnsMessage) (qs : List DnsQuestion) (s : S)
      → P s
      → P (first_question decode resolve query qs s).1
  unfolding first_question
  first_question_keeps query [] s h = h
  first_question_keeps query (q ∷ qs) s h = keeps q.name q.record_type s h

  process_dns_query_keeps :
      (bytes : Bytes) (s : S) → P s → P (process_dns_query decode resolve bytes s).1
  unfolding process_dns_query
  process_dns_query_keeps bytes s h =
      elim (Outcome-cases (Message.parse bytes) (Message.Shape.parse-ne-stuck bytes)) [
        | inl (query, o, e) ↦
            rw (process_dns_query, e) (first_question_keeps query query.questions s h)
        | inr (inl (d, o, e)) ↦ rw (process_dns_query, e) h
        | inr (inr e) ↦ rw (process_dns_query, e) h
      ]

  handle_get_keeps : (req : HttpRequest) (s : S) → P s → P (handle_get decode resolve req s).1
  unfolding handle_get
  handle_get_keeps req s h = elim (Option-cases (dns_param (split_on 38 (or_else req.query [])))) [
    | inl missing ↦ rw (handle_get, missing) h
    | inr (param, present) ↦ elim (Option-cases (decode param)) [
      | inl malformed ↦ rw (handle_get, present, malformed) h
      | inr (bytes, decoded) ↦ rw (handle_get, present, decoded) (process_dns_query_keeps bytes s h)
    ]
  ]

  body_keeps :
      (o : Option Bytes) (s : S)
      → P s
      → P
          (elim o as (λ x. HttpResult × S) [
            | none ↦ (Doh.failure, s)
            | some bytes ↦ process_dns_query decode resolve bytes s
          ]).1
  body_keeps none s h = h
  body_keeps (some bytes) s h = process_dns_query_keeps bytes s h

  handle_post_keeps : (req : HttpRequest) (s : S) → P s → P (handle_post decode resolve req s).1
  unfolding handle_post
  handle_post_keeps req s h =
      if_keeps P (not (text_eq (or_else req.content_type []) dns_message_type))
        (plain 415 (ascii "Expected application/dns-message"), s) _ h (body_keeps req.body s h)

  route_keeps : (m : Method) (req : HttpRequest) (s : S) → P s → P (route decode resolve m req s).1
  unfolding route
  route_keeps Doh.get req s h =
      if_keeps P (text_eq req.path (ascii "/dns-query")) (handle_get decode resolve req s) _
        (handle_get_keeps req s h)
        (if_keeps P (text_eq req.path (ascii "/health")) (plain 200 (ascii "OK"), s)
          (plain 404 (ascii "Not Found"), s) h h)
  route_keeps Doh.post req s h =
      if_keeps P (text_eq req.path (ascii "/dns-query")) (handle_post decode resolve req s)
        (plain 404 (ascii "Not Found"), s) (handle_post_keeps req s h) h
  route_keeps Doh.other req s h = h

  module _ {Peer : Type 0} where
    tcp_task_keeps :
        (stream : Bytes) (s : S) (peer : Peer)
        → P s
        → P (run_tcp decode resolve peer s (tcp_task resolve stream s)).1
    unfolding tcp_task run_tcp
    tcp_task_keeps stream s peer h = elim (Option-cases (tcp_read stream)) [
      | inl short ↦ rw (tcp_task, short) h
      | inr ((msg, rest), read) ↦ rw (tcp_task, read) (handle_query_keeps msg s h)
    ]

    -- However a task ends, it keeps what the resolver keeps, whatever it is asked.
    pub run_task_keeps : (task : Task Peer) (s : S) → P s → P (run_task decode resolve task s).1
    unfolding run_task udp_task handle_request
    run_task_keeps (udp_query payload peer) s h = handle_query_keeps payload s h
    run_task_keeps (tcp_query stream peer) s h = tcp_task_keeps stream s peer h
    run_task_keeps (https_query req peer) s h = route_keeps req.method req s h
