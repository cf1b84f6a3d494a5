-- ===== src/Doh.antt =====
-- `DohServer` of src/doh/mod.rs: from an HTTP request to the HTTP response. The listener
-- and TLS are in Doh/Listener; the HTTP crates are not modelled: a request is what the handlers read of it.
pub mod Params
pub mod Same
pub mod Listener
pub mod Ends
use rust_dns_server.Base.{
  ℕ, Bool, not, Option, none, some, List, [], ◌∷◌, ◌==◌, if◌then◌else◌, Bytes,
}
use rust_dns_server.Text.{Text, TextLib, ascii}
use rust_dns_server.Reader
use rust_dns_server.Name.{DnsName, text_eq}
use rust_dns_server.Codes.RecordType.{RecordType}
use rust_dns_server.Codes.ResponseCode
use rust_dns_server.Record.{DnsRecord}
use rust_dns_server.Question.{DnsQuestion}
use rust_dns_server.Message
use rust_dns_server.Message.{DnsMessage}
use rust_dns_server.Zone.{or_else}
use rust_dns_server.Action
use rust_dns_server.Action.{Action, Answer}
use rust_dns_server.Server.{with_code}

pub data Method : Type 0 where
  get : Method
  post : Method
  other : Method

-- What the handlers read of `Request<Incoming>`: a missing `body` is one that could not be collected,
-- and a header value that is not text counts as missing.
pub record HttpRequest : Type 0 where
  pub method : Method
  pub path : Text
  pub query : Option Text
  pub content_type : Option Text
  pub body : Option Bytes

pub record HttpResponse : Type 0 where
  pub status : ℕ
  pub content_type : Option Text
  pub cache_control : Option Text
  pub body : Bytes

-- What a handler ends with: `failure` is the error that `?` returns.
pub data HttpResult : Type 0 where
  response : HttpResponse → HttpResult
  failure : HttpResult
  panicked : HttpResult
  unfinished : HttpResult

unfoldable pub dns_message_type : Text
unfolding ascii
dns_message_type = ascii "application/dns-message"

-- A response whose body is plain text.
abbrev pub plain : ℕ → Text → HttpResult
plain status body =
    response (record { status = status; content_type = none; cache_control = none; body = body })

abbrev pub dns_response : Option Text → Bytes → HttpResult
dns_response cache_control body = response (record {
  status = 200;
  content_type = some dns_message_type;
  cache_control = cache_control;
  body = body;
})

-- `query_string.split(separator)`
unfoldable pub split_on : ℕ → Text → List Text
split_on separator [] = [] ∷ []
split_on separator (c ∷ s) = elim (split_on separator s) [
  | [] ↦ []
  | piece ∷ rest ↦ if c == separator then [] ∷ (piece ∷ rest) else (c ∷ piece) ∷ rest
]

-- `pair.splitn(2, '=')`, where there are two parts.
unfoldable pub key_value : Text → Option (Text × Text)
key_value [] = none
key_value (c ∷ s) =
    let rest = key_value s in
    if c == 61
    then some ([], s)
    else (elim rest [ none ↦ none | some (key, value) ↦ some (c ∷ key, value) ])

-- The `find_map` over the pairs.
unfoldable pub dns_param : List Text → Option Text
dns_param [] = none
dns_param (pair ∷ pairs) =
    let rest = dns_param pairs in
    elim (key_value pair) [
      | none ↦ rest
      | some (key, value) ↦ if text_eq key (ascii "dns") then some value else rest
    ]

-- The `match` on the handler's result.
unfoldable pub or_internal_error : HttpResult → HttpResult
or_internal_error failure = plain 500 (ascii "Internal Server Error")
or_internal_error result = result

module _ ⦃t : TextLib⦄ where
  -- The `match` on the resolver's result, and the response.
  unfoldable pub resolved : DnsMessage → Answer (List DnsRecord) → HttpResult
  resolved query (Action.done records) = dns_response (some (ascii "max-age=300")) (
      Message.serialize (
        with_code ResponseCode.no_error
          (record (Message.make_response query) { answers = records })))
  resolved query (Action.failed code) =
      dns_response (some (ascii "max-age=300"))
        (Message.serialize (with_code code (Message.make_response query)))
  resolved query Action.panicked = panicked
  resolved query Action.unfinished = unfinished

-- `decode` is `URL_SAFE_NO_PAD.decode` of the crate base64.
module _ ⦃t : TextLib⦄ (decode : Text → Option Bytes) {S : Type 0}
    (resolve : DnsName → RecordType → Action S (List DnsRecord)) where
  unfoldable pub first_question : DnsMessage → List DnsQuestion → S → HttpResult × S
  first_question query [] s = (
    dns_response none
        (Message.serialize (Message.make_error_response query ResponseCode.format_error)),
    s,
  )
  first_question query (q ∷ qs) s =
      let (r, s') = resolve q.name q.record_type s in (resolved query r, s')

  unfoldable pub process_dns_query : Bytes → S → HttpResult × S
  process_dns_query bytes s = elim (Message.parse bytes) [
    | Reader.ok query o ↦ first_question query query.questions s
    | Reader.err e o ↦ (failure, s)
    | Reader.panic ↦ (panicked, s)
    | Reader.stuck ↦ (unfinished, s)
  ]

  unfoldable pub handle_get : HttpRequest → S → HttpResult × S
  handle_get req s = elim (dns_param (split_on 38 (or_else req.query []))) [
    | none ↦ (failure, s)
    | some param ↦ elim (decode param) [
      | none ↦ (failure, s)
      | some bytes ↦ process_dns_query bytes s
    ]
  ]

  unfoldable pub handle_post : HttpRequest → S → HttpResult × S
  handle_post req s =
      if not (text_eq (or_else req.content_type []) dns_message_type)
      then (plain 415 (ascii "Expected application/dns-message"), s)
      else (elim req.body [ none ↦ (failure, s) | some bytes ↦ process_dns_query bytes s ])

  -- The `match` on the method and the path.
  unfoldable pub route : Method → HttpRequest → S → HttpResult × S
  route get req s =
      let query = handle_get req s in
      if text_eq req.path (ascii "/dns-query")
      then query
      else if text_eq req.path (ascii "/health")
      then (plain 200 (ascii "OK"), s)
      else (plain 404 (ascii "Not Found"), s)
  route post req s =
      let query = handle_post req s in
      if text_eq req.path (ascii "/dns-query") then query else (plain 404 (ascii "Not Found"), s)
  route other req s = (plain 404 (ascii "Not Found"), s)

  unfoldable pub handle_request : HttpRequest → S → HttpResult × S
  handle_request req s = let (result, s') = route req.method req s in (or_internal_error result, s')
