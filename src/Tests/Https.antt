-- ===== src/Tests/Https.antt =====
-- DNS over HTTPS: runs, and the theorems at concrete inputs.
use rust_dns_server.Base.{ℕ, ◌+◌, ◌≡◌, refl, Option, none, some, List, [], ◌∷◌, if◌then◌else◌}
use rust_dns_server.Text.{Text, ascii, ascii_text}
use rust_dns_server.Name.{DnsName, text_eq}
use rust_dns_server.Codes.RecordType.{RecordType}
use rust_dns_server.Record.{DnsRecord}
use rust_dns_server.Message
use rust_dns_server.Action.{Action, done}
use rust_dns_server.Server.{handle_query}
use rust_dns_server.Doh.{HttpRequest, get, handle_request}
use rust_dns_server.Doh.Params.{query_text, value_of, AreParams}
use rust_dns_server.Doh.Same.{Carries, by_get, handle_request-handle_query}
use rust_dns_server.Tests.Data.{mail, message}

-- A resolver that counts its calls.
abbrev resolve : DnsName → RecordType → Action ℕ (List DnsRecord)
resolve name record_type calls = (done (mail ∷ []), calls + 1)

-- Stands for the crate base64: it knows one text.
abbrev decode : Text → Option (List ℕ)
decode s = if text_eq s (b'Q' ∷ []) then some (Message.serialize message) else none

-- "ct=1&dns=Q"
abbrev params : List (Text × Text)
params = (b'c' ∷ b't' ∷ [], b'1' ∷ []) ∷ (b'd' ∷ b'n' ∷ b's' ∷ [], b'Q' ∷ []) ∷ []

finds_dns : value_of (ascii "dns") params ≡ some (b'Q' ∷ [])
unfolding value_of text_eq ascii
finds_dns = refl

decodes : decode (b'Q' ∷ []) ≡ some (Message.serialize message)
unfolding text_eq
decodes = refl

params-AreParams : AreParams params
params-AreParams = (
  ((refl, (refl, tt)), (refl, (refl, tt)), (refl, tt)),
  (((refl, (refl, (refl, tt))), (refl, (refl, (refl, tt))), (refl, tt)), tt),
)

abbrev request : HttpRequest
request = record {
  method = get;
  path = ascii "/dns-query";
  query = some (query_text params);
  content_type = none;
  body = none;
}

handle_request-handle_query_example :
    Carries
      (handle_query resolve (Message.serialize message) 6).0
      (handle_request decode resolve request 6).0
    × ((handle_request decode resolve request 6).1
        ≡ (handle_query resolve (Message.serialize message) 6).1)
handle_request-handle_query_example =
    handle_request-handle_query decode resolve request (Message.serialize message) 6
      (by_get params (b'Q' ∷ []) refl refl refl params-AreParams finds_dns decodes)
