-- ===== src/Zone/Table.antt =====
-- The table of a zone: what `get` finds behind `push`, and after a list of pushes.
use rust_dns_server.Base.{
  ◌≡◌, ◌↔◌, refl, ap, Bool, true, Option, some, List, [], ◌∷◌, ◌++◌, arith, if◌then◌else◌,
  append_assoc, Bool-cases, inl, inr,
}
use rust_dns_server.Name.{DnsName}
use rust_dns_server.Name.Equal.{name_eq_iff}
use rust_dns_server.Codes.RecordType.{RecordType, type_eq→eq, eq→type_eq}
use rust_dns_server.Record.{DnsRecord}
use rust_dns_server.Zone.{Table, key_eq, get, push, or_else}

pub key_eq_iff : (k j : DnsName × RecordType) → (key_eq k j ≡ true) ↔ (k ≡ j)
unfolding key_eq
key_eq_iff (n, t) (n', t') = ground (arith, name_eq_iff n n', type_eq→eq t t', eq→type_eq t t')

pub get-push :
    (k j : DnsName × RecordType) (r : DnsRecord) (table : Table)
    → get j (push k r table)
      ≡ (if key_eq k j then some (or_else (get j table) [] ++ (r ∷ [])) else get j table)
unfolding get push
get-push k j r [] = ground arith
get-push k j r ((i, rs) ∷ table) =
    ground (arith, key_eq_iff i k, key_eq_iff i j, key_eq_iff k j, get-push k j r table)

-- The records of a list that pass a test, in order.
unfoldable pub select : (DnsRecord → Bool) → List DnsRecord → List DnsRecord
select test [] = []
select test (r ∷ rs) = if test r then r ∷ select test rs else select test rs

abbrev pub key_of : DnsRecord → DnsName × RecordType
key_of r = (r.name, r.record_type)

abbrev pub has_key : DnsName × RecordType → DnsRecord → Bool
has_key k r = key_eq (key_of r) k

-- A table's answer with more records behind it.
abbrev pub extend : Option (List DnsRecord) → List DnsRecord → Option (List DnsRecord)
extend found [] = found
extend found (r ∷ rs) = some (or_else found [] ++ (r ∷ rs))

pub extend_one :
    (found : Option (List DnsRecord)) (r : DnsRecord) (rs : List DnsRecord)
    → extend (some (or_else found [] ++ (r ∷ []))) rs ≡ extend found (r ∷ rs)
extend_one found r [] = refl
extend_one found r (r' ∷ rs) = ap some (append_assoc (or_else found []) (r ∷ []) (r' ∷ rs))

pub extend-push :
    (j : DnsName × RecordType) (r : DnsRecord) (rs : List DnsRecord) (table : Table)
    → extend (get j (push (key_of r) r table)) (select (has_key j) rs)
      ≡ extend (get j table) (select (has_key j) (r ∷ rs))
unfolding select
extend-push j r rs table = elim (Bool-cases (key_eq (key_of r) j)) [
  | inl mine ↦ rw (get-push, mine) (extend_one (get j table) r (select (has_key j) rs))
  | inr other ↦ rw (get-push, other)
]
