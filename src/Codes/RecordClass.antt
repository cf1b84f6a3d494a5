-- ===== src/Codes/RecordClass.antt =====
-- `RecordClass` of src/dns/record.rs: its number on the wire, and back.
use rust_dns_server.Base.{ℕ, ◌≡◌, ap, ◌==◌, if◌then◌else◌, arith}

pub data RecordClass : Type 0 where
  in_class ch hs any : RecordClass
  unknown : ℕ → RecordClass

unfoldable pub from_u16 : ℕ → RecordClass
from_u16 n =
    if n == 1
    then in_class
    else if n == 3
    then ch
    else if n == 4
    then hs
    else if n == 255
    then any
    else unknown n

unfoldable pub to_u16 : RecordClass → ℕ
to_u16 in_class = 1
to_u16 ch = 3
to_u16 hs = 4
to_u16 any = 255
to_u16 (unknown n) = n

-- `to_u16` gives back every number that `from_u16` was given.
pub to_u16-from_u16 : (n : ℕ) → to_u16 (from_u16 n) ≡ n
unfolding from_u16 to_u16
to_u16-from_u16 n = ground arith

-- The values that `from_u16` makes: `unknown` only at a number with no name.
abbrev pub IsKnown : RecordClass → Type 0
IsKnown c = from_u16 (to_u16 c) ≡ c

pub from_u16-IsKnown : (n : ℕ) → IsKnown (from_u16 n)
from_u16-IsKnown n = ap from_u16 (to_u16-from_u16 n)
