-- ===== src/Name/Safety.antt =====
-- `DnsName::parse` on any buffer: it ends, and no index or slice is out of range.
use rust_dns_server.Base.{
  ℕ, zero, suc, ◌+◌, ◌≤◌, ◌<◌, ◌≡◌, refl, Bool, true, false, inl, inr, ◌++◌, ◌∷◌, [], List, arith,
  length, ltb, leb, ◌==◌, if◌then◌else◌, Bytes, bit_and, Bool-cases, ltb→lt, leb→le,
}
use rust_dns_server.Text.{Text, TextLib}
use rust_dns_server.Reader.{Returns, Returns-bind, Returns-mono, index-lt, slice-le}
use rust_dns_server.Name.{
  DnsName, Round, finish, jump, label, read_end, read_pointer, read_label, round, parse_loop, parse,
}

-- Where the offset stands after a parse from `current`: behind the name, at most at the end of the
-- buffer; a parse that has jumped leaves the offset `o` alone.
abbrev Moved : Bytes → Bool → ℕ → ℕ → ℕ → Type 0
Moved bytes true current o o' = o' ≡ o
Moved bytes false current o o' = (current < o') × (o' ≤ length bytes)

-- What a round does to the position and the offset.
abbrev Rounds : Bytes → Bool → ℕ → ℕ → Round → ℕ → Type 0
Rounds bytes jumped current o finish o' = Moved bytes jumped current o o'
Rounds bytes jumped current o (jump target) o' = Moved bytes jumped current o o'
Rounds bytes jumped current o (label l next) o' =
    (o' ≡ o) × (current < next) × (next ≤ length bytes)

read_end-Rounds :
    (bytes : Bytes) (jumped : Bool) (current o : ℕ)
    → current < length bytes
    → Returns (Rounds bytes jumped current o) (read_end jumped current o)
unfolding read_end
read_end-Rounds bytes true current o h = refl
read_end-Rounds bytes false current o h = omega arith

read_pointer-Rounds :
    (bytes : Bytes) (jumped : Bool) (current len o : ℕ)
    → current < length bytes
    → Returns (Rounds bytes jumped current o) (read_pointer bytes jumped current len o)
unfolding read_pointer
read_pointer-Rounds bytes jumped current len o h =
    elim (Bool-cases (ltb (current + 1) (length bytes))) [
      | inl fits ↦
          let (low, e) =
            index-lt bytes (current + 1) (if jumped then o else current + 2) (ltb→lt _ _ fits) in
          rw (fits, e) (ground arith)
      | inr short ↦ rw short tt
    ]

Moved-label :
    (bytes : Bytes) (jumped : Bool) (current next o o' o'' : ℕ)
    → (o' ≡ o) × (current < next) × (next ≤ length bytes)
    → Moved bytes jumped next o' o''
    → Moved bytes jumped current o o''
Moved-label bytes true current next o o' o'' m r = omega arith
Moved-label bytes false current next o o' o'' m r = omega arith

Moved-jump :
    (bytes : Bytes) (jumped : Bool) (current o o' o'' : ℕ)
    → Moved bytes jumped current o o'
    → o'' ≡ o'
    → Moved bytes jumped current o o''
Moved-jump bytes true current o o' o'' m r = omega arith
Moved-jump bytes false current o o' o'' m r = omega arith

module _ ⦃t : TextLib⦄ where
  read_label-Rounds :
      (bytes : Bytes) (jumped : Bool) (current len o : ℕ)
      → Returns (Rounds bytes jumped current o) (read_label bytes current len o)
  unfolding read_label
  read_label-Rounds bytes jumped current len o =
      elim (Bool-cases (leb (current + 1 + len) (length bytes))) [
        | inl fits ↦
            let within = leb→le _ _ fits in
            rw (fits, slice-le bytes (current + 1) (current + 1 + len) o (omega arith) within)
              (refl, omega arith, within)
        | inr short ↦ rw short tt
      ]

  round-Rounds :
      (bytes : Bytes) (jumped : Bool) (current o : ℕ)
      → Returns (Rounds bytes jumped current o) (round bytes jumped current o)
  unfolding round
  round-Rounds bytes jumped current o = elim (Bool-cases (ltb current (length bytes))) [
    | inl inside ↦
        let (len, e) = index-lt bytes current o (ltb→lt _ _ inside) in
        rw (inside, e) (by_len len (ltb→lt _ _ inside))
    | inr short ↦ rw short tt
  ]
    where
      by_len :
          (len : ℕ)
          → current < length bytes
          → Returns (Rounds bytes jumped current o) (
              (if len == 0
                  then read_end jumped current
                  else if bit_and len 0xC0 == 0xC0
                  then read_pointer bytes jumped current len
                  else read_label bytes current len)
                o)
      by_len len h = elim (Bool-cases (len == 0)) [
        | inl z ↦ rw z (read_end-Rounds bytes jumped current o h)
        | inr nz ↦ elim (Bool-cases (bit_and len 0xC0 == 0xC0)) [
          | inl p ↦ rw (nz, p) (read_pointer-Rounds bytes jumped current len o h)
          | inr q ↦ rw (nz, q) (read_label-Rounds bytes jumped current len o)
        ]
      ]

  -- With more fuel than bytes ahead the loop ends.
  parse_loop-Moved :
      (jumps_left fuel : ℕ) (bytes : Bytes) (jumped : Bool) (current : ℕ) (labels : List Text)
      (o : ℕ)
      → length bytes < fuel + current
      → 0 < fuel
      → Returns
          (λ (n : DnsName) o'. Moved bytes jumped current o o')
          (parse_loop jumps_left fuel bytes jumped current labels o)
  unfolding parse_loop
  parse_loop-Moved jumps_left zero bytes jumped current labels o h p = absurd (omega arith)
  parse_loop-Moved zero (suc fuel) bytes jumped current labels o h p =
      Returns-bind (Rounds bytes jumped current o) (λ _ o'. Moved bytes jumped current o o')
        (round bytes jumped current o) _ (round-Rounds bytes jumped current o)
        (elim [
          | finish ↦ λ o' m. m
          | jump target ↦ λ o' m. tt
          | label l next ↦ λ o' m.
              Returns-mono _
                (parse_loop-Moved zero fuel bytes jumped next (labels ++ (l ∷ [])) o' (omega arith)
                  (omega arith))
                (λ n o''. Moved-label bytes jumped current next o o' o'' m)
        ])
  parse_loop-Moved (suc jumps_left) (suc fuel) bytes jumped current labels o h p =
      Returns-bind (Rounds bytes jumped current o) (λ _ o'. Moved bytes jumped current o o')
        (round bytes jumped current o) _ (round-Rounds bytes jumped current o)
        (elim [
          | finish ↦ λ o' m. m
          | jump target ↦ λ o' m.
              Returns-mono _
                (parse_loop-Moved jumps_left (suc (length bytes)) bytes true target labels o'
                  (omega arith) (omega arith))
                (λ n o''. Moved-jump bytes jumped current o o' o'' m)
          | label l next ↦ λ o' m.
              Returns-mono _
                (parse_loop-Moved (suc jumps_left) fuel bytes jumped next (labels ++ (l ∷ [])) o'
                  (omega arith) (omega arith))
                (λ n o''. Moved-label bytes jumped current next o o' o'' m)
        ])

  -- On every buffer and offset `parse` returns a name or an error: it ends, and reads no byte out of
  -- range. With a name the offset has moved forward, and not past the end of the buffer.
  pub parse-Returns_name :
      (bytes : Bytes) (o : ℕ) → Returns (λ n o'. (o < o') × (o' ≤ length bytes)) (parse bytes o)
  unfolding parse
  parse-Returns_name bytes o =
      parse_loop-Moved 128 (suc (length bytes)) bytes false o [] o (omega arith) (omega arith)
