-- ===== src/Codes/OpCode.antt =====
-- `OpCode` of src/dns/header.rs: its number on the wire, and back.
use rust_dns_server.Base.{ℕ, ◌≡◌, ap, ◌==◌, if◌then◌else◌, arith}

pub data OpCode : Type 0 where
  query iquery status : OpCode
  unknown : ℕ → OpCode

unfoldable pub from_u8 : ℕ → OpCode
from_u8 n =
    if n == 0 then query else if n == 1 then iquery else if n == 2 then status else unknown n

unfoldable pub to_u8 : OpCode → ℕ
to_u8 query = 0
to_u8 iquery = 1
to_u8 status = 2
to_u8 (unknown n) = n

-- `to_u8` gives back every number that `from_u8` was given.
pub to_u8-from_u8 : (n : ℕ) → to_u8 (from_u8 n) ≡ n
unfolding from_u8 to_u8
to_u8-from_u8 n = ground arith

-- The values that `from_u8` makes: `unknown` only at a number with no name.
abbrev pub IsKnown : OpCode → Type 0
IsKnown c = from_u8 (to_u8 c) ≡ c

pub from_u8-IsKnown : (n : ℕ) → IsKnown (from_u8 n)
from_u8-IsKnown n = ap from_u8 (to_u8-from_u8 n)
