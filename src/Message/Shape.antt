-- ===== src/Message/Shape.antt =====
-- `DnsMessage::parse` on any buffer: it ends, and what its sections hold.
use rust_dns_server.Base.{
  ℕ, zero, suc, ◌+◌, ◌≤◌, ◌≡◌, ◌≢◌, List, [], ◌∷◌, ◌++◌, arith, length, Bytes, length-append, ◌⊎◌,
  inl, inr,
}
use rust_dns_server.Text.{TextLib}
use rust_dns_server.Reader.{
  Parser, Outcome, ok, err, panic, stuck, bind-eq-ok, Ends, Ends-bind, Ends-ne_stuck, Returns-Ends,
}
use rust_dns_server.Header
use rust_dns_server.Question
use rust_dns_server.Question.{DnsQuestion}
use rust_dns_server.Record
use rust_dns_server.Record.{DnsRecord}
use rust_dns_server.Message.{DnsMessage, or_stop, parse_questions, parse_records, parse}

or_stop-Ends :
    {A B : Type 0} (m : Outcome A) (kept : B) (next : A → Parser B)
    → Ends m
    → ((a : A) (o : ℕ) → Ends (next a o))
    → Ends (or_stop m kept next)
or_stop-Ends (ok a o) kept next h k = k a o
or_stop-Ends (err e o) kept next h k = tt
or_stop-Ends panic kept next h k = tt
or_stop-Ends stuck kept next h k = h

or_stop-eq-ok :
    {A B : Type 0} (m : Outcome A) (kept : B) (next : A → Parser B) {b : B} {o : ℕ}
    → or_stop m kept next ≡ ok b o
    → (kept ≡ b) ⊎ ((a : A) × (p : ℕ) × (next a p ≡ ok b o))
or_stop-eq-ok (ok a p) kept next h = inr (a, p, h)
or_stop-eq-ok (err e p) kept next h = inl (ground arith)
or_stop-eq-ok panic kept next h = absurd (cc)
or_stop-eq-ok stuck kept next h = absurd (cc)

module _ ⦃t : TextLib⦄ where
  parse_questions-Ends :
      (count : ℕ) (bytes : Bytes) (done : List DnsQuestion) (o : ℕ)
      → Ends (parse_questions count bytes done o)
  unfolding parse_questions
  parse_questions-Ends zero bytes done o = tt
  parse_questions-Ends (suc count) bytes done o =
      Ends-bind (Question.parse bytes o) _
        (Returns-Ends _ (Question.parse bytes o) (Question.Wire.parse-Returns_question bytes o))
        λ q o'. parse_questions-Ends count bytes (done ++ (q ∷ [])) o'

  parse_records-Ends :
      (count : ℕ) (bytes : Bytes) (done : List DnsRecord) (o : ℕ)
      → Ends (parse_records count bytes done o)
  unfolding parse_records
  parse_records-Ends zero bytes done o = tt
  parse_records-Ends (suc count) bytes done o =
      or_stop-Ends (Record.parse bytes o) done _ (Record.Ends.parse-Ends bytes o)
        λ r o'. parse_records-Ends count bytes (done ++ (r ∷ [])) o'

  -- On every buffer `parse` ends: no loop of it runs out of rounds.
  pub parse-ne-stuck : (bytes : Bytes) → parse bytes ≢ stuck
  unfolding parse
  parse-ne-stuck bytes = Ends-ne_stuck (parse bytes) (
      Ends-bind (Header.parse bytes 0) _
        (Returns-Ends _ (Header.parse bytes 0) (Header.Wire.parse-Returns_header bytes 0))
        λ h o0.
          Ends-bind (parse_questions h.question_count bytes [] o0) _
            (parse_questions-Ends h.question_count bytes [] o0)
            λ qs o1.
              Ends-bind (parse_records h.answer_count bytes [] o1) _
                (parse_records-Ends h.answer_count bytes [] o1)
                λ an o2.
                  Ends-bind (parse_records h.authority_count bytes [] o2) _
                    (parse_records-Ends h.authority_count bytes [] o2)
                    λ au o3.
                      Ends-bind (parse_records h.additional_count bytes [] o3) _
                        (parse_records-Ends h.additional_count bytes [] o3) λ ad o4. tt)

  length-parse_questions :
      (count : ℕ) (bytes : Bytes) (done qs : List DnsQuestion) (o o' : ℕ)
      → parse_questions count bytes done o ≡ ok qs o'
      → length qs ≡ length done + count
  unfolding parse_questions
  length-parse_questions zero bytes done qs o o' h = ground arith
  length-parse_questions (suc count) bytes done qs o o' h =
      let (q, p, e, r) = bind-eq-ok (Question.parse bytes o) _ h in
      omega (
        arith,
        length-parse_questions count bytes (done ++ (q ∷ [])) qs p o' r,
        length-append {0} done (q ∷ []),
      )

  length-parse_records :
      (count : ℕ) (bytes : Bytes) (done rs : List DnsRecord) (o o' : ℕ)
      → parse_records count bytes done o ≡ ok rs o'
      → length rs ≤ length done + count
  unfolding parse_records
  length-parse_records zero bytes done rs o o' h = ground arith
  length-parse_records (suc count) bytes done rs o o' h =
      elim (or_stop-eq-ok (Record.parse bytes o) done _ h) [
        | inl same ↦ rw (← same) (omega arith)
        | inr (r, p, e) ↦ omega (
          arith,
          length-parse_records count bytes (done ++ (r ∷ [])) rs p o' e,
          length-append {0} done (r ∷ []),
        )
      ]

  -- A message that `parse` returns has exactly as many questions as its header says, and in each other
  -- section at most as many records.
  pub parse_counts :
      (bytes : Bytes) (m : DnsMessage) (o : ℕ)
      → parse bytes ≡ ok m o
      → (length m.questions ≡ m.header.question_count)
        × (length m.answers ≤ m.header.answer_count)
        × (length m.authorities ≤ m.header.authority_count)
        × (length m.additional ≤ m.header.additional_count)
  unfolding parse
  parse_counts bytes m o e =
      let (h, o0, e0, f0) = bind-eq-ok (Header.parse bytes 0) _ e in
      let (qs, o1, e1, f1) = bind-eq-ok (parse_questions h.question_count bytes [] o0) _ f0 in
      let (an, o2, e2, f2) = bind-eq-ok (parse_records h.answer_count bytes [] o1) _ f1 in
      let (au, o3, e3, f3) = bind-eq-ok (parse_records h.authority_count bytes [] o2) _ f2 in
      let (ad, o4, e4, f4) = bind-eq-ok (parse_records h.additional_count bytes [] o3) _ f3 in
      ground (
        arith,
        f4,
        length-parse_questions h.question_count bytes [] qs o0 o1 e1,
        length-parse_records h.answer_count bytes [] an o1 o2 e2,
        length-parse_records h.authority_count bytes [] au o2 o3 e3,
        length-parse_records h.additional_count bytes [] ad o3 o4 e4,
      )
