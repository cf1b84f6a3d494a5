-- ===== src/Name/New.antt =====
-- `DnsName::new`: the bounds on what it accepts, and its round trip with `DnsName::to_dotted`.
use rust_dns_server.Base.{
  ◌+◌, ◌≤◌, ◌≡◌, refl, ap, ◌∙◌, false, ◌++◌, ◌∷◌, [], List, arith, length, ◌==◌, All, length-append,
  map, Bool-cases, inl, inr, le→ltb_false,
}
use rust_dns_server.Text.{Text, TextLib}
use rust_dns_server.Name.{
  DnsName, named, labels_to_wire, to_wire, text_eq, dot, root, is_root, split_dots, strip_dot,
  any_longer, wire_sum, check_labels, join_dots, to_dotted, new,
}

abbrev pub IsShort : Text → Type 0
IsShort l = length l ≤ 63

length-labels_to_wire : (ls : List Text) → length (labels_to_wire ls) ≡ wire_sum ls + 1
unfolding labels_to_wire wire_sum
length-labels_to_wire [] = refl
length-labels_to_wire (l ∷ ls) =
    omega (arith, length-labels_to_wire ls, length-append {0} l (labels_to_wire ls))

any_longer→All : (ls : List Text) → any_longer 63 ls ≡ false → All IsShort ls
unfolding any_longer
any_longer→All [] h = tt
any_longer→All (l ∷ ls) h = ground (arith, any_longer→All ls)

All→any_longer : (ls : List Text) → All IsShort ls → any_longer 63 ls ≡ false
unfolding any_longer
All→any_longer [] h = refl
All→any_longer (l ∷ ls) h = rw (le→ltb_false _ _ h.0) (All→any_longer ls h.1)

check_labels_bounds :
    (ls : List Text) {n : DnsName}
    → check_labels ls ≡ named n
    → All IsShort n.labels × (length (to_wire n) ≤ 255)
unfolding check_labels to_wire
check_labels_bounds ls h = ground (arith, any_longer→All ls, length-labels_to_wire ls)

check_labels_accepts :
    (n : DnsName)
    → All IsShort n.labels
    → length (to_wire n) ≤ 255
    → check_labels n.labels ≡ named n
unfolding check_labels to_wire
check_labels_accepts n h k = rw (
  All→any_longer n.labels h,
  le→ltb_false 255 (wire_sum n.labels + 1) (omega (arith, length-labels_to_wire n.labels)),
)

root_bounds :
    (n : DnsName) → named root ≡ named n → All IsShort n.labels × (length (to_wire n) ≤ 255)
unfolding to_wire labels_to_wire
root_bounds n h = ground arith

abbrev HasNoDot : Text → Type 0
HasNoDot = All (λ c. (c == dot) ≡ false)

pub split_dots-cons :
    (s : Text) → (piece : Text) × (rest : List Text) × (split_dots s ≡ piece ∷ rest)
unfolding split_dots
split_dots-cons [] = ([], [], refl)
split_dots-cons (c ∷ s) =
    let (piece, rest, e) = split_dots-cons s in
    elim (Bool-cases (c == dot)) [
      | inl p ↦ ([], piece ∷ rest, rw (e, p))
      | inr q ↦ (c ∷ piece, rest, rw (e, q))
    ]

split_dots_one : (l : Text) → HasNoDot l → split_dots l ≡ l ∷ []
unfolding split_dots
split_dots_one [] h = refl
split_dots_one (c ∷ l) h = rw (split_dots_one l h.1, h.0)

split_dots_more : (l s : Text) → HasNoDot l → split_dots (l ++ (dot ∷ s)) ≡ l ∷ split_dots s
unfolding split_dots
split_dots_more [] s h = let (piece, rest, e) = split_dots-cons s in rw e
split_dots_more (c ∷ l) s h = rw (split_dots_more l s h.1, h.0)

split_dots-join_dots :
    (l : Text) (ls : List Text) → All HasNoDot (l ∷ ls) → split_dots (join_dots (l ∷ ls)) ≡ l ∷ ls
unfolding join_dots
split_dots-join_dots l [] h = split_dots_one l h.0
split_dots-join_dots l (l' ∷ ls) h =
    split_dots_more l (join_dots (l' ∷ ls)) h.0 ∙ ap (◌∷◌ l) (split_dots-join_dots l' ls h.1)

join_dots_pos : (l : Text) (ls : List Text) → 1 ≤ length l → 1 ≤ length (join_dots (l ∷ ls))
unfolding join_dots
join_dots_pos l [] h = h
join_dots_pos l (l' ∷ ls) h = omega (arith, length-append {0} l (dot ∷ join_dots (l' ∷ ls)))

strip_dot-append : (s : Text) → strip_dot (s ++ (dot ∷ [])) ≡ s
unfolding strip_dot
strip_dot-append [] = refl
strip_dot-append (c ∷ []) = refl
strip_dot-append (c ∷ c' ∷ s) = ap (◌∷◌ c) (strip_dot-append (c' ∷ s))

module _ ⦃t : TextLib⦄ where
  -- A label that `new` keeps as it is.
  abbrev pub IsPlain : Text → Type 0
  IsPlain l = (1 ≤ length l) × (length l ≤ 63) × HasNoDot l × (t.to_lowercase l ≡ l)

  -- Every name that `new` accepts has labels of at most 63 bytes and at most 255 bytes on the wire.
  pub new_bounds :
      (s : Text) (n : DnsName) → new s ≡ named n → All IsShort n.labels × (length (to_wire n) ≤ 255)
  unfolding new
  new_bounds s n h = elim (Bool-cases (text_eq s [])) [
    | inl e ↦ root_bounds n (rw e at h)
    | inr e ↦ elim (Bool-cases (text_eq s (dot ∷ []))) [
      | inl d ↦ root_bounds n (rw (e, d) at h)
      | inr d ↦ check_labels_bounds (map t.to_lowercase (split_dots (strip_dot s))) (rw (e, d) at h)
    ]
  ]

  map-lower : (ls : List Text) → All IsPlain ls → map t.to_lowercase ls ≡ ls
  map-lower [] h = refl
  map-lower (l ∷ ls) h = rw (h.0.3, map-lower ls h.1)

  All-IsShort : (ls : List Text) → All IsPlain ls → All IsShort ls
  All-IsShort [] h = tt
  All-IsShort (l ∷ ls) h = (h.0.1, All-IsShort ls h.1)

  All-no_dot : (ls : List Text) → All IsPlain ls → All HasNoDot ls
  All-no_dot [] h = tt
  All-no_dot (l ∷ ls) h = (h.0.2, All-no_dot ls h.1)

  new_long :
      (s : Text) (n : DnsName)
      → 2 ≤ length s
      → map t.to_lowercase (split_dots (strip_dot s)) ≡ n.labels
      → check_labels n.labels ≡ named n
      → new s ≡ named n
  unfolding new text_eq
  new_long [] n h e k = absurd (omega arith)
  new_long (c ∷ []) n h e k = absurd (omega arith)
  new_long (c ∷ c' ∷ s) n h e k = elim (Bool-cases (c == dot)) [
    | inl p ↦ rw (p, e) k
    | inr q ↦ rw (q, e) k
  ]

  new-dots :
      (ls : List Text)
      → All IsPlain ls
      → check_labels ls ≡ named (record { labels = ls })
      → new (to_dotted (record { labels = ls })) ≡ named (record { labels = ls })
  unfolding to_dotted is_root
  new-dots [] h k = unfold new text_eq in refl
  new-dots (l ∷ ls) h k =
      let text = join_dots (l ∷ ls) in
      let long : 2 ≤ length (text ++ (dot ∷ [])) =
        omega (arith, length-append {0} text (dot ∷ []), join_dots_pos l ls h.0.0) in
      new_long (text ++ (dot ∷ [])) (record { labels = l ∷ ls }) long
        (rw (strip_dot-append text, split_dots-join_dots l ls (All-no_dot (l ∷ ls) h))
          (map-lower (l ∷ ls) h))
        k

  -- `new` reads back what `to_dotted` printed, for a name of at most 255 bytes on the wire whose
  -- labels have 1 to 63 bytes, no dot and no upper case.
  pub new-to_dotted :
      (n : DnsName) → All IsPlain n.labels → length (to_wire n) ≤ 255 → new (to_dotted n) ≡ named n
  new-to_dotted n h k = new-dots n.labels h (check_labels_accepts n (All-IsShort n.labels h) k)
