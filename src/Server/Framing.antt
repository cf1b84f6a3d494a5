-- ===== src/Server/Framing.antt =====
-- What leaves the server: the TCP length prefix, and the UDP limit of 512 bytes.
use rust_dns_server.Base.{
  drop-append, length-take-le, take-append, ℕ, ◌/◌, ◌%◌, ◌≤◌, ◌<◌, ◌≡◌, ◌≢◌, refl, ◌∙◌, ap, some,
  ◌++◌, arith, length, take, drop, Bytes, IsU16, from_be16, length-append, lt→ltb, le→ltb_false,
  le→leb,
}
use rust_dns_server.Text.{TextLib}
use rust_dns_server.Reader.{ok}
use rust_dns_server.Message
use rust_dns_server.Message.{DnsMessage, counted}
use rust_dns_server.Server.{reply, truncate, tcp_frame, tcp_read, udp_send}
use rust_dns_server.Server.Answers.{parse-sent}

read_frame :
    (bytes rest : Bytes) (n : ℕ)
    → length bytes % 65536 ≡ n
    → tcp_read (tcp_frame bytes ++ rest) ≡ some (take n (bytes ++ rest), drop n (bytes ++ rest))
unfolding tcp_read tcp_frame
read_frame bytes rest n e =
    let prefix : from_be16 (length bytes % 65536 / 256 % 256) (length bytes % 65536 % 256) ≡ n =
      omega arith in
    rw (
      prefix,
      le→ltb_false 65535 n (omega arith),
      le→leb n (length (bytes ++ rest)) (omega (arith, length-append {0} bytes rest)),
    )

-- A reader of the TCP stream gets back the framed message, and what follows it, if the message is
-- shorter than 64 KiB.
pub tcp_read-tcp_frame :
    (bytes rest : Bytes)
    → IsU16 (length bytes)
    → tcp_read (tcp_frame bytes ++ rest) ≡ some (bytes, rest)
tcp_read-tcp_frame bytes rest h =
    read_frame bytes rest (length bytes) (omega arith) ∙ rw (take-append, drop-append)

-- The length prefix of a message of 64 KiB or more wraps around: the reader takes the length modulo
-- 65536 for the length, and so gets exactly that many bytes of the front, never the message.
pub tcp_read_long :
    (bytes rest : Bytes)
    → 65536 ≤ length bytes
    → (tcp_read (tcp_frame bytes ++ rest)
        ≡ some (
          take (length bytes % 65536) (bytes ++ rest),
          drop (length bytes % 65536) (bytes ++ rest),
        ))
      × (take (length bytes % 65536) (bytes ++ rest) ≢ bytes)
tcp_read_long bytes rest h =
    let n = length bytes % 65536 in
    (
      read_frame bytes rest n refl,
      λ e. absurd (omega (arith, length-take-le {0} n (bytes ++ rest), ap length e)),
    )

module _ ⦃t : TextLib⦄ where
  -- A reply of at most 512 bytes goes out over UDP as it is.
  pub udp_send_short : (bytes : Bytes) → length bytes ≤ 512 → udp_send (reply bytes) ≡ reply bytes
  unfolding udp_send
  udp_send_short bytes short = rw (le→ltb_false 512 (length bytes) short) refl

  truncate-IsWire :
      (m : DnsMessage)
      → Message.Wire.IsWire m
      → Message.Wire.IsWire (truncate (record m { header = counted m }))
  unfolding truncate counted
  truncate-IsWire m v = record {
    id_fits = v.id_fits;
    opcode_fits = v.opcode_fits;
    opcode_known = v.opcode_known;
    code_fits = v.code_fits;
    code_known = v.code_known;
    questions_fit = v.questions_fit;
    answers_fit = tt;
    authorities_fit = tt;
    additional_fit = tt;
    questions_count = v.questions_count;
    answers_count = omega arith;
    authorities_count = omega arith;
    additional_count = omega arith;
  }

  -- In place of a reply of more than 512 bytes that was written from a well-formed message `m`, UDP
  -- carries bytes that read back as `m` with the truncation bit set and no records.
  pub udp_send_long :
      (m : DnsMessage)
      → Message.Wire.IsWire m
      → 512 < length (Message.serialize m)
      → (bytes : Bytes) × (udp_send (reply (Message.serialize m)) ≡ reply bytes)
        × (Message.parse bytes
            ≡ ok (record (truncate m) { header = counted (truncate m) }) (length bytes))
  unfolding udp_send
  udp_send_long m v long =
      let received = record m { header = counted m } in
      (
        Message.serialize (truncate received),
        rw (lt→ltb 512 (length (Message.serialize m)) long, parse-sent m v, udp_send) refl,
        unfold truncate counted in parse-sent (truncate received) (truncate-IsWire m v),
      )
