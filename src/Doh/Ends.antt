-- ===== src/Doh/Ends.antt =====
-- The HTTP handlers of src/doh/mod.rs on any request: they end.
use rust_dns_server.Base.{
  ℕ, ◌≢◌, refl, inl, inr, Bool, true, false, not, Option, none, some, List, [], ◌∷◌, Bytes,
  Option-cases, if◌then◌else◌,
}
use rust_dns_server.Text.{Text, TextLib, ascii}
use rust_dns_server.Name.{DnsName, text_eq}
use rust_dns_server.Codes.RecordType.{RecordType}
use rust_dns_server.Record.{DnsRecord}
use rust_dns_server.Question.{DnsQuestion}
use rust_dns_server.Message
use rust_dns_server.Message.{DnsMessage}
use rust_dns_server.Zone.{or_else}
use rust_dns_server.Action
use rust_dns_server.Action.{Action, Answer}
use rust_dns_server.Server.Ends.{Outcome-cases, Resolves}
use rust_dns_server.Doh.{
  get, post, other, Method, HttpRequest, HttpResult, response, failure, panicked, unfinished, plain,
  dns_message_type, split_on, dns_param, or_internal_error, resolved, first_question,
  process_dns_query, handle_get, handle_post, route, handle_request,
}

abbrev Ends : HttpResult → Type 0
Ends r = r ≢ unfinished

if-Ends :
    {S : Type 0} (b : Bool) (x y : HttpResult × S)
    → Ends x.0
    → Ends y.0
    → Ends (if b then x else y).0
if-Ends true x y h k = h
if-Ends false x y h k = k

or_internal_error-Ends : (r : HttpResult) → Ends r → Ends (or_internal_error r)
unfolding or_internal_error
or_internal_error-Ends (response answer) h = h
or_internal_error-Ends failure h = λ p. cc
or_internal_error-Ends panicked h = h
or_internal_error-Ends unfinished h = h

module _ ⦃t : TextLib⦄ where
  resolved-Ends :
      (query : DnsMessage) (r : Answer (List DnsRecord))
      → r ≢ Action.unfinished
      → Ends (resolved query r)
  unfolding resolved
  resolved-Ends query (Action.done rs) h = λ p. cc
  resolved-Ends query (Action.failed code) h = λ p. cc
  resolved-Ends query Action.panicked h = λ p. cc
  resolved-Ends query Action.unfinished h = λ p. h refl

  module _ (decode : Text → Option Bytes) {S : Type 0}
      (resolve : DnsName → RecordType → Action S (List DnsRecord)) (ends : Resolves resolve) where
    first_question-Ends :
        (query : DnsMessage) (qs : List DnsQuestion) (s : S)
        → Ends (first_question decode resolve query qs s).0
    unfolding first_question
    first_question-Ends query [] s = λ p. cc
    first_question-Ends query (q ∷ qs) s =
        resolved-Ends query (resolve q.name q.record_type s).0 (ends q.name q.record_type s)

    process_dns_query-Ends :
        (bytes : Bytes) (s : S) → Ends (process_dns_query decode resolve bytes s).0
    unfolding process_dns_query
    process_dns_query-Ends bytes s =
        elim (Outcome-cases (Message.parse bytes) (Message.Shape.parse-ne-stuck bytes)) [
          | inl (query, o, e) ↦
              rw (process_dns_query, e) (first_question-Ends query query.questions s)
          | inr (inl (d, o, e)) ↦ rw (process_dns_query, e) (λ p. cc)
          | inr (inr e) ↦ rw (process_dns_query, e) (λ p. cc)
        ]

    handle_get-Ends : (req : HttpRequest) (s : S) → Ends (handle_get decode resolve req s).0
    unfolding handle_get
    handle_get-Ends req s = elim (Option-cases (dns_param (split_on 38 (or_else req.query [])))) [
      | inl missing ↦ rw (handle_get, missing) (λ p. cc)
      | inr (param, present) ↦ elim (Option-cases (decode param)) [
        | inl malformed ↦ rw (handle_get, present, malformed) (λ p. cc)
        | inr (bytes, decoded) ↦ rw (handle_get, present, decoded) (process_dns_query-Ends bytes s)
      ]
    ]

    body-Ends :
        (o : Option Bytes) (s : S)
        → Ends
            (elim o as (λ x. HttpResult × S) [
              | none ↦ (failure, s)
              | some bytes ↦ process_dns_query decode resolve bytes s
            ]).0
    body-Ends none s = λ p. cc
    body-Ends (some bytes) s = process_dns_query-Ends bytes s

    plain-Ends : (status : ℕ) (body : Text) → Ends (plain status body)
    plain-Ends status body = λ p. cc

    handle_post-Ends : (req : HttpRequest) (s : S) → Ends (handle_post decode resolve req s).0
    unfolding handle_post
    handle_post-Ends req s =
        if-Ends (not (text_eq (or_else req.content_type []) dns_message_type))
          (plain 415 (ascii "Expected application/dns-message"), s) _
          (plain-Ends 415 (ascii "Expected application/dns-message")) (body-Ends req.body s)

    route-Ends : (m : Method) (req : HttpRequest) (s : S) → Ends (route decode resolve m req s).0
    unfolding route
    route-Ends get req s =
        if-Ends (text_eq req.path (ascii "/dns-query")) (handle_get decode resolve req s) _
          (handle_get-Ends req s)
          (if-Ends (text_eq req.path (ascii "/health")) (plain 200 (ascii "OK"), s)
            (plain 404 (ascii "Not Found"), s) (plain-Ends 200 (ascii "OK"))
            (plain-Ends 404 (ascii "Not Found")))
    route-Ends post req s =
        if-Ends (text_eq req.path (ascii "/dns-query")) (handle_post decode resolve req s)
          (plain 404 (ascii "Not Found"), s) (handle_post-Ends req s)
          (plain-Ends 404 (ascii "Not Found"))
    route-Ends other req s = plain-Ends 404 (ascii "Not Found")

    -- If the resolver always ends then so does every HTTP request.
    pub handle_request-ne_unfinished :
        (req : HttpRequest) (s : S) → (handle_request decode resolve req s).0 ≢ unfinished
    unfolding handle_request
    handle_request-ne_unfinished req s = or_internal_error-Ends _ (route-Ends req.method req s)
