-- ===== src/Doh/Same.antt =====
-- DNS over HTTPS against the DNS server: the same queries have the same replies.
use rust_dns_server.Base.{◌≡◌, refl, true, Option, none, some, List, [], ◌∷◌, Bytes}
use rust_dns_server.Text.{Text, TextLib, ascii}
use rust_dns_server.Reader.{Outcome, ok, err, panic, stuck}
use rust_dns_server.Name.{DnsName, text_eq}
use rust_dns_server.Name.Equal.{text_eq_iff}
use rust_dns_server.Codes.RecordType.{RecordType}
use rust_dns_server.Record.{DnsRecord}
use rust_dns_server.Question.{DnsQuestion}
use rust_dns_server.Message
use rust_dns_server.Message.{DnsMessage, make_response}
use rust_dns_server.Action
use rust_dns_server.Action.{Action, Answer}
use rust_dns_server.Server
use rust_dns_server.Server.{Handled, fill, respond, answer, handle_query}
use rust_dns_server.Doh.{
  HttpRequest, HttpResult, response, failure, panicked, unfinished, get, post, dns_message_type,
  or_internal_error, resolved, first_question, process_dns_query, handle_get, handle_post, route,
  handle_request,
}
use rust_dns_server.Doh.Params.{query_text, value_of, AreParams, dns_param-query_text}

-- The HTTP result that stands for what `handle_query` ends with: the reply as the body of a DNS
-- message, an error as the status 500.
abbrev pub Carries : Server.Handled → HttpResult → Type 0
Carries (Server.reply bytes) (response r) =
    (r.status ≡ 200) × (r.content_type ≡ some dns_message_type) × (r.body ≡ bytes)
Carries (Server.dropped e) (response r) = (r.status ≡ 500) × (r.content_type ≡ none)
Carries Server.panicked panicked = Unit {0}
Carries Server.unfinished unfinished = Unit {0}
Carries _ _ = ⊥

-- The request asks for the answer to the DNS message: by GET, base64 in its parameter `dns`, or by
-- POST, as its body.
pub data Asks (decode : Text → Option Bytes) (req : HttpRequest) (bytes : Bytes) : Type 0 where
  by_get :
      (ps : List (Text × Text)) (param : Text)
      → req.method ≡ get
      → req.path ≡ ascii "/dns-query"
      → req.query ≡ some (query_text ps)
      → AreParams ps
      → value_of (ascii "dns") ps ≡ some param
      → decode param ≡ some bytes
      → Asks decode req bytes
  by_post :
      req.method ≡ post
      → req.path ≡ ascii "/dns-query"
      → req.content_type ≡ some dns_message_type
      → req.body ≡ some bytes
      → Asks decode req bytes

module _ ⦃t : TextLib⦄ where
  -- An empty list of answers makes no difference.
  resolved-respond :
      (query : DnsMessage) (r : Answer (List DnsRecord))
      → Carries (respond query r) (or_internal_error (resolved query r))
  unfolding respond resolved fill or_internal_error make_response
  resolved-respond query (Action.done []) = (refl, refl, refl)
  resolved-respond query (Action.done (r ∷ rs)) = (refl, refl, refl)
  resolved-respond query (Action.failed code) = (refl, refl, refl)
  resolved-respond query Action.panicked = tt
  resolved-respond query Action.unfinished = tt

  module _ (decode : Text → Option Bytes) {S : Type 0}
      (resolve : DnsName → RecordType → Action S (List DnsRecord)) where
    -- The two results, and the states that they leave.
    abbrev pub Alike : Server.Handled × S → HttpResult × S → Type 0
    Alike handled result = Carries handled.0 (or_internal_error result.0) × (result.1 ≡ handled.1)

    first_question-answer :
        (query : DnsMessage) (qs : List DnsQuestion) (s : S)
        → Alike (answer resolve query qs s) (first_question decode resolve query qs s)
    unfolding answer first_question or_internal_error
    first_question-answer query [] s = ((refl, refl, refl), refl)
    first_question-answer query (q ∷ qs) s =
        (resolved-respond query (resolve q.name q.record_type s).0, refl)

    process_dns_query-handle_query :
        (bytes : Bytes) (s : S)
        → Alike (handle_query resolve bytes s) (process_dns_query decode resolve bytes s)
    unfolding handle_query process_dns_query or_internal_error
    process_dns_query-handle_query bytes s = process (Message.parse bytes)
      where
        process :
            (m : Outcome DnsMessage)
            → Alike
                (elim m [
                  | ok query o ↦ answer resolve query query.questions s
                  | err e o ↦ (Server.dropped e, s)
                  | panic ↦ (Server.panicked, s)
                  | stuck ↦ (Server.unfinished, s)
                ])
                (elim m [
                  | ok query o ↦ first_question decode resolve query query.questions s
                  | err e o ↦ (failure, s)
                  | panic ↦ (panicked, s)
                  | stuck ↦ (unfinished, s)
                ])
        process (ok query o) = first_question-answer query query.questions s
        process (err e o) = ((refl, refl), refl)
        process panic = (tt, refl)
        process stuck = (tt, refl)

    eq_text : (s u : Text) → s ≡ u → text_eq s u ≡ true
    eq_text s u e = (text_eq_iff s u).1 e

    -- A request that asks for a DNS message by GET or POST is answered as the DNS server answers the
    -- message: a reply is the body, byte for byte, with status 200 and the content type of a DNS message;
    -- where the server drops the message, the status is 500; a panic is a panic; and the resolver
    -- is left in the same state.
    pub handle_request-handle_query :
        (req : HttpRequest) (bytes : Bytes) (s : S)
        → Asks decode req bytes
        → Carries (handle_query resolve bytes s).0 (handle_request decode resolve req s).0
          × ((handle_request decode resolve req s).1 ≡ (handle_query resolve bytes s).1)
    unfolding handle_request route handle_get handle_post
    handle_request-handle_query req bytes s
          (by_get ps param is_get path query params value decoded) =
        rw
          (
            handle_request,
            route,
            handle_get,
            is_get,
            eq_text _ _ path,
            query,
            dns_param-query_text ps params,
            value,
            decoded,
          )
          (process_dns_query-handle_query bytes s)
    handle_request-handle_query req bytes s (by_post is_post path typed body) =
        rw
          (
            handle_request,
            route,
            handle_post,
            is_post,
            eq_text _ _ path,
            typed,
            eq_text dns_message_type dns_message_type refl,
            body,
          )
          (process_dns_query-handle_query bytes s)
