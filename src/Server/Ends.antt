-- ===== src/Server/Ends.antt =====
-- The tasks of src/server/mod.rs on any bytes: they end.
use rust_dns_server.Base.{
  ℕ, ◌≡◌, ◌≢◌, refl, List, [], ◌∷◌, ◌⊎◌, inl, inr, length, ltb, Bytes, Bool-cases,
}
use rust_dns_server.Text.{TextLib}
use rust_dns_server.Error.{DnsError}
use rust_dns_server.Reader.{Outcome, ok, err, panic, stuck}
use rust_dns_server.Name.{DnsName}
use rust_dns_server.Codes.RecordType.{RecordType}
use rust_dns_server.Question.{DnsQuestion}
use rust_dns_server.Message
use rust_dns_server.Message.{DnsMessage}
use rust_dns_server.Record.{DnsRecord}
use rust_dns_server.Action
use rust_dns_server.Action.{Action, Answer}
use rust_dns_server.Server.{
  Handled, reply, dropped, panicked, unfinished, udp_send, respond, answer, handle_query, udp_task,
}

-- What an outcome other than `stuck` is.
pub Outcome-cases :
    {A : Type 0} (m : Outcome A)
    → m ≢ stuck
    → ((a : A) × (o : ℕ) × (m ≡ ok a o))
      ⊎ (((e : DnsError) × (o : ℕ) × (m ≡ err e o)) ⊎ (m ≡ panic))
Outcome-cases (ok a o) h = inl (a, o, refl)
Outcome-cases (err e o) h = inr (inl (e, o, refl))
Outcome-cases panic h = inr (inr refl)
Outcome-cases stuck h = absurd (h refl)

module _ ⦃t : TextLib⦄ where
  udp_send-ne_unfinished : (h : Handled) → h ≢ unfinished → udp_send h ≢ unfinished
  unfolding udp_send
  udp_send-ne_unfinished (reply bytes) k = elim (Bool-cases (ltb 512 (length bytes))) [
    | inr short ↦ rw short k
    | inl long ↦ elim (Outcome-cases (Message.parse bytes) (Message.Shape.parse-ne-stuck bytes)) [
      | inl (m, o, e) ↦ rw (long, e) (λ p. cc)
      | inr (inl (d, o, e)) ↦ rw (long, e) (λ p. cc)
      | inr (inr e) ↦ rw (long, e) (λ p. cc)
    ]
  ]
  udp_send-ne_unfinished (dropped e) k = k
  udp_send-ne_unfinished panicked k = k
  udp_send-ne_unfinished unfinished k = k

  respond-ne_unfinished :
      (query : DnsMessage) (r : Answer (List DnsRecord))
      → r ≢ Action.unfinished
      → respond query r ≢ unfinished
  unfolding respond
  respond-ne_unfinished query (Action.done rs) h p = cc
  respond-ne_unfinished query (Action.failed code) h p = cc
  respond-ne_unfinished query Action.panicked h p = cc
  respond-ne_unfinished query Action.unfinished h p = h refl

  module _ {S : Type 0} (resolve : DnsName → RecordType → Action S (List DnsRecord)) where
    -- The resolver ends, for each question.
    abbrev pub Resolves : Type 0
    Resolves =
        (name : DnsName) (record_type : RecordType) (s : S)
        → (resolve name record_type s).0 ≢ Action.unfinished

    answer-ne_unfinished :
        (query : DnsMessage) (qs : List DnsQuestion) (s : S)
        → Resolves
        → (answer resolve query qs s).0 ≢ unfinished
    unfolding answer
    answer-ne_unfinished query [] s h = λ p. cc
    answer-ne_unfinished query (q ∷ qs) s h =
        respond-ne_unfinished query (resolve q.name q.record_type s).0 (h q.name q.record_type s)

    pub handle_query-ne_unfinished :
        (bytes : Bytes) (s : S) → Resolves → (handle_query resolve bytes s).0 ≢ unfinished
    unfolding handle_query
    handle_query-ne_unfinished bytes s h =
        elim (Outcome-cases (Message.parse bytes) (Message.Shape.parse-ne-stuck bytes)) [
          | inl (m, o, e) ↦ rw (e, handle_query) (answer-ne_unfinished m m.questions s h)
          | inr (inl (d, o, e)) ↦ rw (e, handle_query) (λ p. cc)
          | inr (inr e) ↦ rw (e, handle_query) (λ p. cc)
        ]

    -- Whatever bytes arrive, the UDP task ends in a reply, an error or a panic if the resolver always
    -- ends: neither the parse of the query nor that of a reply which is too long goes on for ever.
    pub udp_task-ne_unfinished :
        (bytes : Bytes) (s : S) → Resolves → (udp_task resolve bytes s).0 ≢ unfinished
    unfolding udp_task
    udp_task-ne_unfinished bytes s h =
        udp_send-ne_unfinished (handle_query resolve bytes s).0
          (handle_query-ne_unfinished bytes s h)
