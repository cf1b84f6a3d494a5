-- ===== src/Zone/Names.antt =====
-- The names of a zone from a configuration all lie under the zone's name.
use mathlib.Core.List.{map-append}
use mathlib.Core.Path.{subst}
use rust_dns_server.Base.{
  ℕ, ◌≤◌, ◌≡◌, refl, sym, ap, ◌∙◌, Bool, true, false, ◌&&◌, some, List, [], ◌∷◌, ◌++◌, map, length,
  arith, ◌==◌, append-nil, Bool-cases, inl, inr, ◌⊎◌, All, length-append,
}
use rust_dns_server.Text.{Text, TextLib, ascii}
use rust_dns_server.Error.{ok}
use rust_dns_server.Name
use rust_dns_server.Name.{
  DnsName, NameResult, named, refused, text_eq, name_eq, dot, root, split_dots, strip_dot,
  check_labels, is_subdomain_of,
}
use rust_dns_server.Name.New.{split_dots-cons}
use rust_dns_server.Name.Equal.{text_eq_iff, is_subdomain_of_iff, name_eq_iff}
use rust_dns_server.Codes.TypeNames.{from_str_type}
use rust_dns_server.Codes.RecordType.{RecordType, type_eq}
use rust_dns_server.Record
use rust_dns_server.Record.{DnsRecord}
use rust_dns_server.Zone.{
  Zone, ZoneDefinition, RecordConfig, AddrLib, name_or, or_error, rdata_of, record_name, convert,
  from_config, contains, zone_lookup,
}
use rust_dns_server.Zone.Table.{select, has_key, key_eq_iff}
use rust_dns_server.Zone.Load.{
  >>=-eq-ok, convert_all, from_config-Loaded, zone_lookup-from_config, answer, nonempty,
}

-- One name ends in the other's labels.
abbrev pub IsUnder : DnsName → DnsName → Type 0
IsUnder n zone = (front : List Text) × (n.labels ≡ front ++ zone.labels)

split_dots-append : (s u : Text) → split_dots (s ++ (dot ∷ u)) ≡ split_dots s ++ split_dots u
unfolding split_dots
split_dots-append [] u = let (piece, rest, e) = split_dots-cons u in rw e
split_dots-append (c ∷ s) u =
    let (piece, rest, e) = split_dots-cons s in
    elim (Bool-cases (c == dot)) [
      | inl p ↦ rw (split_dots-append s u, e, p)
      | inr q ↦ rw (split_dots-append s u, e, q)
    ]

strip_dot-behind :
    (s : Text) (c c' : ℕ) (u : Text) → strip_dot (s ++ (c ∷ c' ∷ u)) ≡ s ++ (c ∷ strip_dot (c' ∷ u))
unfolding strip_dot
strip_dot-behind [] c c' u = refl
strip_dot-behind (x ∷ []) c c' u = refl
strip_dot-behind (x ∷ x' ∷ s) c c' u = ap (◌∷◌ x) (strip_dot-behind (x' ∷ s) c c' u)

check_labels-eq : (ls : List Text) (n : DnsName) → check_labels ls ≡ named n → n.labels ≡ ls
unfolding check_labels
check_labels-eq ls n h = ground arith

ok_eq : {A : Type 0} {a b : A} → ok a ≡ ok b → a ≡ b
ok_eq h = cc

and_false : (b : Bool) → (b && false) ≡ false
and_false b = ground arith

named_eq : (m n : DnsName) → named m ≡ named n → m ≡ n
named_eq m n h = cc

name_or-eq-ok :
    (prefix : Text) (r : NameResult) (n : DnsName) → name_or prefix r ≡ ok n → r ≡ named n
unfolding name_or
name_or-eq-ok prefix (named m) n h = ground arith
name_or-eq-ok prefix (refused e) n h = absurd (cc)

module _ ⦃t : TextLib⦄ ⦃addr : AddrLib⦄ where
  new_cases :
      (s : Text) (n : DnsName)
      → Name.new s ≡ named n
      → ((length s ≤ 1) × (n.labels ≡ []))
        ⊎ (n.labels ≡ map t.to_lowercase (split_dots (strip_dot s)))
  unfolding Name.new
  new_cases s n h = elim (Bool-cases (text_eq s [])) [
    | inl e ↦ inl (
      omega (arith, ap length ((text_eq_iff s []).0 e)),
      ap (λ (m : DnsName). m.labels) (sym (named_eq root n (rw e at h))),
    )
    | inr e ↦ elim (Bool-cases (text_eq s (dot ∷ []))) [
      | inl d ↦ inl (
        omega (arith, ap length ((text_eq_iff s (dot ∷ [])).0 d)),
        ap (λ (m : DnsName). m.labels) (sym (named_eq root n (rw (e, d) at h))),
      )
      | inr d ↦ inr (check_labels-eq _ n (rw (e, d) at h))
    ]
  ]

  new_empty : Name.new [] ≡ named root
  unfolding Name.new text_eq
  new_empty = refl

  -- A name in front of a zone's name, joined by a dot.
  joined-IsUnder :
      (front def_name : Text) (zone n : DnsName)
      → Name.new def_name ≡ named zone
      → Name.new (front ++ (dot ∷ def_name)) ≡ named n
      → IsUnder n zone
  joined-IsUnder front [] zone n h k =
      let e = ap (λ (m : DnsName). m.labels) (named_eq root zone (sym new_empty ∙ h)) in
      (n.labels, rw (← e) (sym (append-nil n.labels)))
  joined-IsUnder front (c ∷ def_name) zone n h k = elim (new_cases (c ∷ def_name) zone h) [
    | inl (short, e) ↦ (n.labels, rw e (sym (append-nil n.labels)))
    | inr e ↦ elim (new_cases (front ++ (dot ∷ c ∷ def_name)) n k) [
      | inl (short, e') ↦ absurd (omega (arith, length-append {0} front (dot ∷ c ∷ def_name)))
      | inr e' ↦ (
        map t.to_lowercase (split_dots front),
        e' ∙ rw (strip_dot-behind, split_dots-append, map-append, e),
      )
    ]
  ]

  record_name-IsUnder :
      (zone : DnsName) (def_name : Text) (rec : RecordConfig) (n : DnsName)
      → Name.new def_name ≡ named zone
      → record_name zone def_name rec ≡ ok n
      → IsUnder n zone
  unfolding record_name
  record_name-IsUnder zone def_name rec n h k = elim (Bool-cases (text_eq rec.name (ascii "@"))) [
    | inl apex ↦ ([], ap (λ (m : DnsName). m.labels) (sym (ok_eq (rw apex at k))))
    | inr below ↦ joined-IsUnder rec.name def_name zone n h (name_or-eq-ok [] _ n (rw below at k))
  ]

  convert-IsUnder :
      (zone : DnsName) (def_name : Text) (ttl : ℕ) (rec : RecordConfig) (r : DnsRecord)
      → Name.new def_name ≡ named zone
      → convert zone def_name ttl rec ≡ ok r
      → IsUnder r.name zone
  unfolding convert Record.new
  convert-IsUnder zone def_name ttl rec r h k =
      let (n, e0, f0) = >>=-eq-ok (record_name zone def_name rec) _ k in
      let (rtype, e1, f1) = >>=-eq-ok (or_error (from_str_type rec.record_type) _) _ f0 in
      let (rdata, e2, f2) = >>=-eq-ok (rdata_of rec rtype) _ f1 in
      let (front, e) = record_name-IsUnder zone def_name rec n h e0 in
      (front, ap (λ (x : DnsRecord). x.name.labels) (sym (ok_eq f2)) ∙ e)

  convert_all-IsUnder :
      (zone : DnsName) (def_name : Text) (ttl : ℕ) (recs : List RecordConfig) (rs : List DnsRecord)
      → Name.new def_name ≡ named zone
      → convert_all zone def_name ttl recs ≡ ok rs
      → All (λ (r : DnsRecord). IsUnder r.name zone) rs
  unfolding convert_all
  convert_all-IsUnder zone def_name ttl [] rs h k = rw (← (ok_eq k)) tt
  convert_all-IsUnder zone def_name ttl (rec ∷ recs) rs h k =
      let (r, e0, f0) = >>=-eq-ok (convert zone def_name ttl rec) _ k in
      let (rest, e1, f1) = >>=-eq-ok (convert_all zone def_name ttl recs) _ f0 in
      rw (← (ok_eq f1)) (
        convert-IsUnder zone def_name ttl rec r h e0,
        convert_all-IsUnder zone def_name ttl recs rest h e1,
      )

  -- A record of the list that has the key lends its name to the conclusion.
  selected-IsUnder :
      (zone n : DnsName) (rtype : RecordType) (rs found : List DnsRecord)
      → All (λ (r : DnsRecord). IsUnder r.name zone) rs
      → nonempty (select (has_key (n, rtype)) rs) ≡ some found
      → IsUnder n zone
  unfolding select
  selected-IsUnder zone n rtype [] found all h = absurd (cc)
  selected-IsUnder zone n rtype (r ∷ rs) found all h = elim (Bool-cases (has_key (n, rtype) r)) [
    | inl mine ↦
        let same : r.name ≡ n =
          ap (λ (k : DnsName × RecordType). k.0)
            ((key_eq_iff (r.name, r.record_type) (n, rtype)).0 mine) in
        subst (λ (m : DnsName). IsUnder m zone) same all.0
    | inr other ↦ selected-IsUnder zone n rtype rs found all.1 (rw other at h)
  ]

  answer-IsUnder :
      (zone n : DnsName) (soa : DnsRecord) (rtype : RecordType) (rs found : List DnsRecord)
      → All (λ (r : DnsRecord). IsUnder r.name zone) rs
      → answer zone soa rs n rtype ≡ some found
      → IsUnder n zone
  unfolding answer
  answer-IsUnder zone n soa rtype rs found all h = elim (Bool-cases (name_eq n zone)) [
    | inl apex ↦ ([], ap (λ (m : DnsName). m.labels) ((name_eq_iff n zone).0 apex))
    | inr below ↦ selected-IsUnder zone n rtype rs found all (
        rw
          (below, and_false (type_eq rtype RecordType.soa), and_false (type_eq rtype RecordType.ns))
          at h)
  ]

  -- A zone from a configuration answers only for names that it contains.
  pub zone_lookup-contains :
      (def : ZoneDefinition) (z : Zone) (n : DnsName) (rtype : RecordType) (found : List DnsRecord)
      → from_config def ≡ ok z
      → zone_lookup z n rtype ≡ some found
      → contains z n ≡ true
  unfolding contains
  zone_lookup-contains def z n rtype found h k =
      let (rs, all, e) = zone_lookup-from_config def z n rtype h in
      let named_zone =
        name_or-eq-ok (ascii "Invalid zone name: ") _ z.name
          (from_config-Loaded def z h).named_zone in
      let under =
        answer-IsUnder z.name n z.soa rtype rs found
          (convert_all-IsUnder z.name def.name def.soa.minimum def.records rs named_zone all)
          (sym e ∙ k) in
      rw ((is_subdomain_of_iff n z.name).1 under)
