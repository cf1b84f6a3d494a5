-- ===== src/Message/Wire.antt =====
-- A message: `DnsMessage::serialize` and back by `DnsMessage::parse`.
use rust_dns_server.Base.{
  ℕ, ◌+◌, ◌<◌, ◌≡◌, refl, ap, ◌∙◌, List, [], ◌∷◌, ◌++◌, arith, length, Bytes, IsU16, At, At-append,
  At-split, At-here, All, append_assoc, append-nil, length-append,
}
use rust_dns_server.Text.{TextLib}
use rust_dns_server.Reader.{ok}
use rust_dns_server.Codes.OpCode
use rust_dns_server.Codes.ResponseCode
use rust_dns_server.Header
use rust_dns_server.Question
use rust_dns_server.Question.{DnsQuestion}
use rust_dns_server.Record
use rust_dns_server.Record.{DnsRecord}
use rust_dns_server.Message.{
  DnsMessage, write_questions, write_records, counted, serialize, parse_questions, parse_records,
  parse,
}

length-header : (h : Header.DnsHeader) → length (Header.serialize h) ≡ 12
unfolding Header.serialize
length-header h = refl

module _ ⦃t : TextLib⦄ where
  -- A message whose parts fit the wire. The header's counts are no part of it: `serialize` writes
  -- those of the sections.
  pub record IsWire (m : DnsMessage) : Type 0 where
    pub id_fits : IsU16 m.header.id
    pub opcode_fits : OpCode.to_u8 m.header.opcode < 16
    pub opcode_known : OpCode.IsKnown m.header.opcode
    pub code_fits : ResponseCode.to_u8 m.header.response_code < 16
    pub code_known : ResponseCode.IsKnown m.header.response_code
    pub questions_fit : All Question.Wire.IsWire m.questions
    pub answers_fit : All Record.Wire.IsWire m.answers
    pub authorities_fit : All Record.Wire.IsWire m.authorities
    pub additional_fit : All Record.Wire.IsWire m.additional
    pub questions_count : IsU16 (length m.questions)
    pub answers_count : IsU16 (length m.answers)
    pub authorities_count : IsU16 (length m.authorities)
    pub additional_count : IsU16 (length m.additional)

  counted-IsWire : (m : DnsMessage) → IsWire m → Header.Wire.IsWire (counted m)
  unfolding counted
  counted-IsWire m v = record {
    id_fits = v.id_fits;
    opcode_fits = v.opcode_fits;
    opcode_known = v.opcode_known;
    code_fits = v.code_fits;
    code_known = v.code_known;
    questions_fit = omega arith;
    answers_fit = omega arith;
    authorities_fit = omega arith;
    additional_fit = omega arith;
  }

  parse_questions-write :
      (bytes : Bytes) (o : ℕ) (done qs : List DnsQuestion)
      → All Question.Wire.IsWire qs
      → At bytes o (write_questions qs)
      → parse_questions (length qs) bytes done o ≡ ok (done ++ qs) (o + length (write_questions qs))
  unfolding parse_questions write_questions
  parse_questions-write bytes o done [] h w = rw append-nil (ap (ok done) (omega arith))
  parse_questions-write bytes o done (q ∷ qs) h w =
      let (wq, rest) = At-append bytes o (Question.serialize q) (write_questions qs) w in
      let o' = o + length (Question.serialize q) in
      let moved : o' + length (write_questions qs)
          ≡ o + length (Question.serialize q ++ write_questions qs) =
        omega (arith, length-append {0} (Question.serialize q) (write_questions qs)) in
      rw (Question.Wire.parse-serialize_question bytes o q h.0 wq)
        (parse_questions-write bytes o' (done ++ (q ∷ [])) qs h.1 rest ∙ rw (append_assoc, moved))

  parse_records-write :
      (bytes : Bytes) (o : ℕ) (done rs : List DnsRecord)
      → All Record.Wire.IsWire rs
      → At bytes o (write_records rs)
      → parse_records (length rs) bytes done o ≡ ok (done ++ rs) (o + length (write_records rs))
  unfolding parse_records write_records
  parse_records-write bytes o done [] h w = rw append-nil (ap (ok done) (omega arith))
  parse_records-write bytes o done (r ∷ rs) h w =
      let (wr, rest) = At-append bytes o (Record.serialize r) (write_records rs) w in
      let o' = o + length (Record.serialize r) in
      let moved : o' + length (write_records rs)
          ≡ o + length (Record.serialize r ++ write_records rs) =
        omega (arith, length-append {0} (Record.serialize r) (write_records rs)) in
      rw (Record.Wire.parse-serialize_record bytes o r h.0 wr, parse_records)
        (parse_records-write bytes o' (done ++ (r ∷ [])) rs h.1 rest ∙ rw (append_assoc, moved))

  -- The sections behind the header.
  At-sections :
      (m : DnsMessage) (bytes : Bytes)
      → At bytes 0 (serialize m)
      → At bytes 0 (Header.serialize (counted m))
        × At bytes 12 (write_questions m.questions)
        × At bytes (12 + length (write_questions m.questions)) (write_records m.answers)
        × At bytes
            (12 + length (write_questions m.questions) + length (write_records m.answers))
            (write_records m.authorities)
        × At bytes
            (12
              + length (write_questions m.questions)
              + length (write_records m.answers)
              + length (write_records m.authorities))
            (write_records m.additional)
  unfolding serialize
  At-sections m bytes w =
      let qs = write_questions m.questions in
      let an = write_records m.answers in
      let au = write_records m.authorities in
      let ad = write_records m.additional in
      let (w0, x0) =
        At-split bytes 0 12 (Header.serialize (counted m)) (qs ++ (an ++ (au ++ ad)))
          (omega (arith, length-header (counted m))) w in
      let (w1, x1) = At-append bytes 12 qs (an ++ (au ++ ad)) x0 in
      let (w2, x2) = At-append bytes (12 + length qs) an (au ++ ad) x1 in
      let (w3, w4) = At-append bytes (12 + length qs + length an) au ad x2 in (w0, w1, w2, w3, w4)

  length-serialize :
      (m : DnsMessage)
      → length (serialize m)
        ≡ 12
          + length (write_questions m.questions)
          + length (write_records m.answers)
          + length (write_records m.authorities)
          + length (write_records m.additional)
  unfolding serialize
  length-serialize m =
      let qs = write_questions m.questions in
      let an = write_records m.answers in
      let au = write_records m.authorities in
      let ad = write_records m.additional in
      omega (
        arith,
        length-header (counted m),
        length-append {0} (Header.serialize (counted m)) (qs ++ (an ++ (au ++ ad))),
        length-append {0} qs (an ++ (au ++ ad)),
        length-append {0} an (au ++ ad),
        length-append {0} au ad,
      )

  counts :
      (m : DnsMessage)
      → IsWire m
      → ((counted m).question_count ≡ length m.questions)
        × ((counted m).answer_count ≡ length m.answers)
        × ((counted m).authority_count ≡ length m.authorities)
        × ((counted m).additional_count ≡ length m.additional)
  unfolding counted
  counts m v = omega arith

  -- `parse` reads back a message that `serialize` wrote at the start of a buffer: every section, and
  -- the header with the sections' lengths as its counts, if the parts fit the wire.
  pub parse-serialize_message :
      (m : DnsMessage) (rest : Bytes)
      → IsWire m
      → parse (serialize m ++ rest) ≡ ok (record m { header = counted m }) (length (serialize m))
  unfolding parse
  parse-serialize_message m rest v =
      let bytes = serialize m ++ rest in
      let (w0, w1, w2, w3, w4) = At-sections m bytes (At-here (serialize m) rest) in
      let (c0, c1, c2, c3) = counts m v in
      let o1 = 12 + length (write_questions m.questions) in
      let o2 = o1 + length (write_records m.answers) in
      let o3 = o2 + length (write_records m.authorities) in
      rw (
        Header.Wire.parse-serialize_header bytes 0 (counted m) (counted-IsWire m v) w0,
        c0,
        c1,
        c2,
        c3,
        parse_questions-write bytes 12 [] m.questions v.questions_fit w1,
        parse_records-write bytes o1 [] m.answers v.answers_fit w2,
        parse_records-write bytes o2 [] m.authorities v.authorities_fit w3,
        parse_records-write bytes o3 [] m.additional v.additional_fit w4,
        length-serialize m,
      )
