-- ===== src/Name.antt =====
-- `DnsName` of src/dns/name.rs: construction from text, the label operations, and the wire format.
pub mod Safety
pub mod Wire
pub mod New
pub mod Equal
use rust_dns_server.Base.{
  ℕ, zero, suc, ◌+◌, ◌-◌, ◌*◌, ◌%◌, Bool, true, false, ◌&&◌, not, Option, none, some, List, [], ◌∷◌,
  ◌++◌, map, length, drop, ltb, leb, ◌==◌, if◌then◌else◌, Bytes, bit_and, bit_or,
}
use rust_dns_server.Text.{Text, TextLib}
use rust_dns_server.Error.{
  DnsError, name_too_long, label_too_long, buffer_too_short, invalid_pointer, pointer_loop,
}
use rust_dns_server.Reader.{
  Parser, Outcome, ok, err, panic, stuck, bind, ◌>>=◌, ◌>>◌, pure, offset, set_offset, require,
  index, slice,
}

pub record DnsName : Type 0 where
  pub labels : List Text

-- `==` on texts and on lists of labels, as derived for `DnsName`.
unfoldable pub text_eq : Text → Text → Bool
text_eq [] [] = true
text_eq (a ∷ s) (b ∷ t) = (a == b) && text_eq s t
text_eq _ _ = false

unfoldable pub labels_eq : List Text → List Text → Bool
labels_eq [] [] = true
labels_eq (s ∷ ss) (t ∷ ts) = text_eq s t && labels_eq ss ts
labels_eq _ _ = false

unfoldable pub name_eq : DnsName → DnsName → Bool
name_eq a b = labels_eq a.labels b.labels

abbrev pub dot : ℕ
dot = b'.'

-- `name.split('.')`: the pieces between the dots, one at least.
unfoldable pub split_dots : Text → List Text
split_dots [] = [] ∷ []
split_dots (c ∷ s) = elim (split_dots s) [
  | [] ↦ []
  | piece ∷ rest ↦ if c == dot then [] ∷ (piece ∷ rest) else (c ∷ piece) ∷ rest
]

-- `name.strip_suffix('.').unwrap_or(name)`
unfoldable pub strip_dot : Text → Text
strip_dot [] = []
strip_dot (c ∷ []) = if c == dot then [] else c ∷ []
strip_dot (c ∷ c' ∷ s) = c ∷ strip_dot (c' ∷ s)

-- The outcome of `DnsName::new`.
pub data NameResult : Type 0 where
  named : DnsName → NameResult
  refused : DnsError → NameResult

unfoldable pub any_longer : ℕ → List Text → Bool
any_longer n [] = false
any_longer n (l ∷ ls) = if ltb n (length l) then true else any_longer n ls

-- `labels.iter().map(|l| l.len() + 1).sum()`
unfoldable pub wire_sum : List Text → ℕ
wire_sum [] = 0
wire_sum (l ∷ ls) = length l + 1 + wire_sum ls

unfoldable pub check_labels : List Text → NameResult
check_labels labels =
    if any_longer 63 labels
    then refused label_too_long
    else if ltb 255 (wire_sum labels + 1)
    then refused name_too_long
    else named (record { labels = labels })

abbrev pub root : DnsName
root = record { labels = [] }

unfoldable pub is_root : DnsName → Bool
is_root n = elim n.labels [ [] ↦ true | _ ∷ _ ↦ false ]

abbrev pub label_count : DnsName → ℕ
label_count n = length n.labels

unfoldable pub parent_labels : List Text → Option DnsName
parent_labels [] = none
parent_labels (l ∷ []) = some root
parent_labels (l ∷ l' ∷ ls) = some (record { labels = l' ∷ ls })

unfoldable pub parent : DnsName → Option DnsName
unfolding parent_labels
parent n = parent_labels n.labels

unfoldable pub is_subdomain_of : DnsName → DnsName → Bool
is_subdomain_of n other =
    if ltb (label_count n) (label_count other)
    then false
    else labels_eq (drop (label_count n - label_count other) n.labels) other.labels

unfoldable pub labels_to_wire : List Text → Bytes
labels_to_wire [] = 0 ∷ []
labels_to_wire (l ∷ ls) = (length l % 256) ∷ (l ++ labels_to_wire ls)

unfoldable pub to_wire : DnsName → Bytes
to_wire n = labels_to_wire n.labels

-- `labels.join(".")`
unfoldable pub join_dots : List Text → Text
join_dots [] = []
join_dots (l ∷ []) = l
join_dots (l ∷ l' ∷ ls) = l ++ (dot ∷ join_dots (l' ∷ ls))

unfoldable pub to_dotted : DnsName → Text
to_dotted n = if is_root n then dot ∷ [] else join_dots n.labels ++ (dot ∷ [])

-- `Display`
unfoldable pub display : DnsName → Text
display n = if is_root n then dot ∷ [] else join_dots n.labels

-- What one round of the loop in `DnsName::parse` does: `break`, `continue` at a pointer's target, or
-- a label and the position behind it.
pub data Round : Type 0 where
  finish : Round
  jump : ℕ → Round
  label : Text → ℕ → Round

-- `if !jumped { *offset = o; }`
abbrev pub set_unless : Bool → ℕ → Parser (Unit {0})
set_unless jumped new o = ok tt (if jumped then o else new)

unfoldable pub read_end : Bool → ℕ → Parser Round
read_end jumped current = do set_unless jumped (current + 1); pure finish

unfoldable pub read_pointer : Bytes → Bool → ℕ → ℕ → Parser Round
read_pointer bytes jumped current len = do
  require (ltb (current + 1) (length bytes)) buffer_too_short
  set_unless jumped (current + 2)
  low ← index bytes (current + 1)
  let pointer = bit_or (bit_and len 0x3F * 256) low
  require (ltb pointer (length bytes)) invalid_pointer
  pure (jump pointer)

abbrev pub max_jumps : ℕ
max_jumps = 128

module _ ⦃t : TextLib⦄ where
  unfoldable pub new : Text → NameResult
  new name =
      if text_eq name []
      then named root
      else if text_eq name (dot ∷ [])
      then named root
      else check_labels (map t.to_lowercase (split_dots (strip_dot name)))

  unfoldable pub read_label : Bytes → ℕ → ℕ → Parser Round
  read_label bytes current len = do
    require (leb (current + 1 + len) (length bytes)) buffer_too_short
    raw ← slice bytes (current + 1) (current + 1 + len)
    pure (label (t.to_lowercase (t.from_utf8_lossy raw)) (current + 1 + len))

  unfoldable pub round : Bytes → Bool → ℕ → Parser Round
  round bytes jumped current = do
    require (ltb current (length bytes)) buffer_too_short
    len ← index bytes current
    if len == 0
        then read_end jumped current
        else if bit_and len 0xC0 == 0xC0
        then read_pointer bytes jumped current len
        else read_label bytes current len

  -- The loop. `MAX_JUMPS - jumps` counts down, and the fuel is for the rounds up to the next jump.
  unfoldable pub parse_loop : (jumps_left fuel : ℕ) → Bytes → Bool → ℕ → List Text → Parser DnsName
  parse_loop jumps_left zero bytes jumped current labels o = stuck
  parse_loop zero (suc fuel) bytes jumped current labels o =
      bind (round bytes jumped current o) (elim [
        | finish ↦ pure (record { labels = labels })
        | jump target ↦ err pointer_loop
        | label l next ↦ parse_loop zero fuel bytes jumped next (labels ++ (l ∷ []))
      ])
  parse_loop (suc jumps_left) (suc fuel) bytes jumped current labels o =
      bind (round bytes jumped current o) (elim [
        | finish ↦ pure (record { labels = labels })
        | jump target ↦ parse_loop jumps_left (suc (length bytes)) bytes true target labels
        | label l next ↦ parse_loop (suc jumps_left) fuel bytes jumped next (labels ++ (l ∷ []))
      ])

  unfoldable pub parse : Bytes → Parser DnsName
  parse bytes o = parse_loop max_jumps (suc (length bytes)) bytes false o [] o
