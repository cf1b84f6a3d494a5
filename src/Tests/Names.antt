-- ===== src/Tests/Names.antt =====
-- Names: runs, and the theorems at concrete inputs.
use rust_dns_server.Base.{◌+◌, ◌≤◌, ◌<◌, ◌≡◌, refl, [], ◌∷◌, arith, length, All, Bytes}
use rust_dns_server.Text.{ascii_text}
use rust_dns_server.Error.{pointer_loop}
use rust_dns_server.Reader.{Returns, ok, err}
use rust_dns_server.Name.{
  DnsName, named, to_wire, labels_to_wire, text_eq, split_dots, strip_dot, any_longer, wire_sum,
  check_labels, join_dots, is_root, to_dotted, new, read_end, read_pointer, read_label, round,
  parse_loop, parse,
}
use rust_dns_server.Name.Safety.{parse-Returns_name}
use rust_dns_server.Name.Wire.{parse-to_wire, parse-to_wire_cut}
use rust_dns_server.Name.New.{IsShort, new_bounds, new-to_dotted}
use rust_dns_server.Tests.Data.{ab, www_ab}

abbrev wire : Bytes
wire = 3 ∷ b'w' ∷ b'w' ∷ b'w' ∷ 2 ∷ b'a' ∷ b'b' ∷ 0 ∷ []

-- A name behind two bytes, in upper case, and a pointer to its second label.
abbrev compressed : Bytes
compressed = 7 ∷ 7 ∷ 3 ∷ b'W' ∷ b'w' ∷ b'W' ∷ 2 ∷ b'a' ∷ b'b' ∷ 0 ∷ 0xC0 ∷ 6 ∷ 9 ∷ []

runs : Unit {0}
unfolding text_eq split_dots strip_dot any_longer wire_sum check_labels join_dots is_root to_dotted
    new labels_to_wire to_wire read_end read_pointer read_label round parse_loop parse
runs = tt

to_wire_run : to_wire www_ab ≡ wire
unfolding runs
to_wire_run = refl

parse_run : parse compressed 2 ≡ ok www_ab 10
unfolding runs
parse_run = refl

parse_pointer_run : parse compressed 10 ≡ ok (record { labels = ab ∷ [] }) 12
unfolding runs
parse_pointer_run = refl

-- A pointer to itself.
parse_loop_run : parse (0xC0 ∷ 0 ∷ []) 0 ≡ err pointer_loop 2
unfolding runs
parse_loop_run = refl

new_run : new (b'W' ∷ b'w' ∷ b'w' ∷ b'.' ∷ b'a' ∷ b'B' ∷ b'.' ∷ []) ≡ named www_ab
unfolding runs
new_run = refl

-- "a..b" is accepted, with an empty label.
abbrev gap : DnsName
gap = record { labels = (b'a' ∷ []) ∷ [] ∷ (b'b' ∷ []) ∷ [] }

gap_run : new (b'a' ∷ b'.' ∷ b'.' ∷ b'b' ∷ []) ≡ named gap
unfolding runs
gap_run = refl

parse-Returns_name_example :
    Returns (λ n o'. (2 < o') × (o' ≤ length compressed)) (parse compressed 2)
parse-Returns_name_example = parse-Returns_name compressed 2

parse-to_wire_example : parse (7 ∷ wire) 1 ≡ ok www_ab (1 + length (to_wire www_ab))
unfolding runs
parse-to_wire_example =
    parse-to_wire (7 ∷ wire) 1 www_ab
      ((omega arith, omega arith, refl), ((omega arith, omega arith, refl), tt))
      (refl, (refl, (refl, (refl, (refl, (refl, (refl, (refl, omega arith))))))))

parse-to_wire_cut_example :
    parse (1 ∷ b'a' ∷ 0 ∷ 1 ∷ b'b' ∷ 0 ∷ []) 0
    ≡ ok (record { labels = (b'a' ∷ []) ∷ [] }) (0 + length (labels_to_wire ((b'a' ∷ []) ∷ [])))
unfolding runs
parse-to_wire_cut_example =
    parse-to_wire_cut (1 ∷ b'a' ∷ 0 ∷ 1 ∷ b'b' ∷ 0 ∷ []) 0 ((b'a' ∷ []) ∷ []) ((b'b' ∷ []) ∷ [])
      ((omega arith, omega arith, refl), tt)
      (refl, (refl, (refl, (refl, (refl, (refl, omega arith))))))

new_bounds_example : All IsShort www_ab.labels × (length (to_wire www_ab) ≤ 255)
new_bounds_example = new_bounds (b'W' ∷ b'w' ∷ b'w' ∷ b'.' ∷ b'a' ∷ b'B' ∷ b'.' ∷ []) www_ab new_run

new-to_dotted_example : new (to_dotted www_ab) ≡ named www_ab
unfolding to_wire labels_to_wire
new-to_dotted_example =
    new-to_dotted www_ab
      (
        (omega arith, omega arith, (refl, (refl, (refl, tt))), refl),
        ((omega arith, omega arith, (refl, (refl, tt)), refl), tt),
      )
      (omega arith)
