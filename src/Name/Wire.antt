-- ===== src/Name/Wire.antt =====
-- The wire format of a name: `DnsName::to_wire` and back by `DnsName::parse`.
use rust_dns_server.Base.{
  ℕ, zero, suc, ◌+◌, ◌%◌, ◌≤◌, ◌<◌, ◌≡◌, refl, ap, ◌∙◌, sym, true, false, ◌++◌, ◌∷◌, [], List,
  arith, length, ◌==◌, if◌then◌else◌, Bytes, bit_and, passes, passes-lt, At, At-append, At-length,
  lt→ltb, le→leb, All, append_assoc, append-nil, length-append, lt→==_false,
}
use rust_dns_server.Text.{Text, TextLib}
use rust_dns_server.Reader.{Outcome, ok, slice-At}
use rust_dns_server.Name.{
  DnsName, finish, label, read_end, read_label, round, parse_loop, parse, labels_to_wire, to_wire,
}

-- A length byte below 192 has not both of its top bits set, so it is no pointer.
no_pointer_table : passes (λ b. if bit_and b 0xC0 == 0xC0 then false else true) 192 ≡ true
unfolding passes
no_pointer_table = refl

no_pointer : (b : ℕ) → b < 192 → (bit_and b 0xC0 == 0xC0) ≡ false
no_pointer b h = ground (
  arith,
  passes-lt (λ x. if bit_and x 0xC0 == 0xC0 then false else true) 192 no_pointer_table {i = b} h,
)

labels_to_wire_cut :
    (ls more : List Text)
    → labels_to_wire (ls ++ ([] ∷ more)) ≡ labels_to_wire ls ++ labels_to_wire more
unfolding labels_to_wire
labels_to_wire_cut [] more = refl
labels_to_wire_cut (l ∷ ls) more =
    ap (λ (s : Bytes). (length l % 256) ∷ s)
      (ap (λ (s : Bytes). l ++ s) (labels_to_wire_cut ls more)
        ∙ sym (append_assoc l (labels_to_wire ls) (labels_to_wire more)))

outcome_eq :
    {ls ls' : List Text} {o o' : ℕ}
    → ls ≡ ls'
    → o ≡ o'
    → ◌≡◌ {A = Outcome DnsName} (ok (record { labels = ls }) o) (ok (record { labels = ls' }) o')
outcome_eq p q = cc

module _ ⦃t : TextLib⦄ where
  -- A label that the wire format keeps: not empty, short enough for its length byte not to read as
  -- a pointer, and in lower case.
  abbrev pub IsLabel : Text → Type 0
  IsLabel l = (1 ≤ length l) × (length l < 192) × (t.to_lowercase (t.from_utf8_lossy l) ≡ l)

  abbrev pub IsWire : DnsName → Type 0
  IsWire n = All IsLabel n.labels

  round_end :
      (bytes : Bytes) (current o : ℕ)
      → At bytes current (0 ∷ [])
      → round bytes false current o ≡ ok finish (current + 1)
  unfolding round read_end
  round_end bytes current o w =
      rw (lt→ltb current (length bytes) (omega (arith, At-length bytes current (0 ∷ []) w)), w.0)

  round_label :
      (bytes : Bytes) (current o : ℕ) (l rest : Text)
      → IsLabel l
      → At bytes current ((length l % 256) ∷ (l ++ rest))
      → round bytes false current o ≡ ok (label l (current + 1 + length l)) o
  unfolding round read_label
  round_label bytes current o l rest h w =
      let body = (At-append bytes (current + 1) l rest w.1).0 in
      let inside = At-length bytes (current + 1) l body in
      let whole : length l % 256 ≡ length l = omega arith in
      rw (
        lt→ltb current (length bytes) (omega arith),
        w.0,
        whole,
        lt→==_false (length l) 0 h.0,
        no_pointer (length l) h.1,
        le→leb _ _ inside,
        slice-At bytes (current + 1) (current + 1 + length l) o l body refl,
        h.2,
      )

  loop_label :
      (jumps fuel : ℕ) (bytes : Bytes) (current o : ℕ) (l : Text) (next : ℕ) (labels : List Text)
      → round bytes false current o ≡ ok (label l next) o
      → parse_loop jumps (suc fuel) bytes false current labels o
        ≡ parse_loop jumps fuel bytes false next (labels ++ (l ∷ [])) o
  unfolding parse_loop
  loop_label zero fuel bytes current o l next labels e = rw e
  loop_label (suc jumps) fuel bytes current o l next labels e = rw e

  loop_end :
      (jumps fuel : ℕ) (bytes : Bytes) (current o : ℕ) (labels : List Text)
      → round bytes false current o ≡ ok finish (current + 1)
      → parse_loop jumps (suc fuel) bytes false current labels o
        ≡ ok (record { labels = labels }) (current + 1)
  unfolding parse_loop
  loop_end zero fuel bytes current o labels e = rw e
  loop_end (suc jumps) fuel bytes current o labels e = rw e

  loop-labels :
      (jumps fuel : ℕ) (bytes : Bytes) (current o : ℕ) (done ls : List Text)
      → All IsLabel ls
      → At bytes current (labels_to_wire ls)
      → length bytes < fuel + current
      → parse_loop jumps fuel bytes false current done o
        ≡ ok (record { labels = done ++ ls }) (current + length (labels_to_wire ls))
  unfolding labels_to_wire
  loop-labels jumps zero bytes current o done [] h w f =
      absurd (omega (arith, At-length bytes current (0 ∷ []) w))
  loop-labels jumps zero bytes current o done (l ∷ ls) h w f =
      absurd (omega (arith, At-length bytes current (labels_to_wire (l ∷ ls)) w))
  loop-labels jumps (suc fuel) bytes current o done [] h w f =
      rw append-nil (loop_end jumps fuel bytes current o done (round_end bytes current o w))
  loop-labels jumps (suc fuel) bytes current o done (l ∷ ls) h w f =
      loop_label jumps fuel bytes current o l (current + 1 + length l) done
        (round_label bytes current o l (labels_to_wire ls) h.0 w)
      ∙ loop-labels jumps fuel bytes (current + 1 + length l) o (done ++ (l ∷ [])) ls h.1
          (At-append bytes (current + 1) l (labels_to_wire ls) w.1).1 (omega arith)
      ∙ outcome_eq (append_assoc done (l ∷ []) ls)
          (omega (arith, length-append {0} l (labels_to_wire ls)))

  -- `parse` reads back a name that `to_wire` wrote anywhere in a buffer, and stops right behind it,
  -- if its labels are in lower case, not empty and shorter than 192 bytes.
  pub parse-to_wire :
      (bytes : Bytes) (o : ℕ) (n : DnsName)
      → IsWire n
      → At bytes o (to_wire n)
      → parse bytes o ≡ ok n (o + length (to_wire n))
  unfolding parse to_wire
  parse-to_wire bytes o n h w =
      loop-labels 128 (suc (length bytes)) bytes o o [] n.labels h w (omega arith)

  -- A name with an empty label is cut at it: `parse` reads back only the labels before.
  pub parse-to_wire_cut :
      (bytes : Bytes) (o : ℕ) (ls more : List Text)
      → All IsLabel ls
      → At bytes o (to_wire (record { labels = ls ++ ([] ∷ more) }))
      → parse bytes o ≡ ok (record { labels = ls }) (o + length (labels_to_wire ls))
  unfolding parse to_wire
  parse-to_wire_cut bytes o ls more h w =
      loop-labels 128 (suc (length bytes)) bytes o o [] ls h
        (At-append bytes o (labels_to_wire ls) (labels_to_wire more)
          (rw (labels_to_wire_cut ls more) at w)).0
        (omega arith)

labels_to_wire_pos : (ls : List Text) → 1 ≤ length (labels_to_wire ls)
unfolding labels_to_wire
labels_to_wire_pos [] = omega arith
labels_to_wire_pos (l ∷ ls) = omega arith

pub to_wire_pos : (n : DnsName) → 1 ≤ length (to_wire n)
unfolding to_wire
to_wire_pos n = labels_to_wire_pos n.labels
