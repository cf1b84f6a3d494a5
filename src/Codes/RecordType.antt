-- ===== src/Codes/RecordType.antt =====
-- `RecordType` of src/dns/rdata.rs: its number on the wire, and back.
use native.Mathlib.Decide.{ℕ_discrete}
use rust_dns_server.Base.{ℕ, ◌≡◌, refl, ap, Bool, true, false, ◌==◌, if◌then◌else◌, arith}

pub data RecordType : Type 0 where
  a aaaa cname mx txt ns soa srv ptr ds dnskey rrsig nsec opt : RecordType
  unknown : ℕ → RecordType

unfoldable pub from_u16 : ℕ → RecordType
from_u16 n =
    if n == 1
    then a
    else if n == 28
    then aaaa
    else if n == 5
    then cname
    else if n == 15
    then mx
    else if n == 16
    then txt
    else if n == 2
    then ns
    else if n == 6
    then soa
    else if n == 33
    then srv
    else if n == 12
    then ptr
    else if n == 43
    then ds
    else if n == 48
    then dnskey
    else if n == 46
    then rrsig
    else if n == 47
    then nsec
    else if n == 41
    then opt
    else unknown n

unfoldable pub to_u16 : RecordType → ℕ
to_u16 a = 1
to_u16 aaaa = 28
to_u16 cname = 5
to_u16 mx = 15
to_u16 txt = 16
to_u16 ns = 2
to_u16 soa = 6
to_u16 srv = 33
to_u16 ptr = 12
to_u16 ds = 43
to_u16 dnskey = 48
to_u16 rrsig = 46
to_u16 nsec = 47
to_u16 opt = 41
to_u16 (unknown n) = n

-- `to_u16` gives back every number that `from_u16` was given.
pub to_u16-from_u16 : (n : ℕ) → to_u16 (from_u16 n) ≡ n
unfolding from_u16 to_u16
to_u16-from_u16 n = ground arith

-- The values that `from_u16` makes: `unknown` only at a number with no name.
abbrev pub IsKnown : RecordType → Type 0
IsKnown c = from_u16 (to_u16 c) ≡ c

pub from_u16-IsKnown : (n : ℕ) → IsKnown (from_u16 n)
from_u16-IsKnown n = ap from_u16 (to_u16-from_u16 n)

-- The derived `==`.
unfoldable pub discrete : Discrete RecordType
discrete = hlevel ℕ_discrete

unfoldable pub type_eq : RecordType → RecordType → Bool
type_eq x y = elim (discrete x y) [ yes _ ↦ true | no _ ↦ false ]

pub type_eq→eq : (x y : RecordType) → type_eq x y ≡ true → x ≡ y
unfolding type_eq
type_eq→eq x y h = ground arith

pub eq→type_eq : (x y : RecordType) → x ≡ y → type_eq x y ≡ true
unfolding type_eq
eq→type_eq x y h = ground arith

type_eq_run : (type_eq mx mx ≡ true) × (type_eq (unknown 15) mx ≡ false)
unfolding type_eq discrete ℕ_discrete
type_eq_run = (refl, refl)
