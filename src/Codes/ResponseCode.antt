-- ===== src/Codes/ResponseCode.antt =====
-- `ResponseCode` of src/dns/header.rs: its number on the wire, and back.
use rust_dns_server.Base.{ℕ, ◌≡◌, ap, ◌==◌, if◌then◌else◌, arith}

pub data ResponseCode : Type 0 where
  no_error format_error server_failure name_error not_implemented refused : ResponseCode
  unknown : ℕ → ResponseCode

unfoldable pub from_u8 : ℕ → ResponseCode
from_u8 n =
    if n == 0
    then no_error
    else if n == 1
    then format_error
    else if n == 2
    then server_failure
    else if n == 3
    then name_error
    else if n == 4
    then not_implemented
    else if n == 5
    then refused
    else unknown n

unfoldable pub to_u8 : ResponseCode → ℕ
to_u8 no_error = 0
to_u8 format_error = 1
to_u8 server_failure = 2
to_u8 name_error = 3
to_u8 not_implemented = 4
to_u8 refused = 5
to_u8 (unknown n) = n

-- `to_u8` gives back every number that `from_u8` was given.
pub to_u8-from_u8 : (n : ℕ) → to_u8 (from_u8 n) ≡ n
unfolding from_u8 to_u8
to_u8-from_u8 n = ground arith

-- The values that `from_u8` makes: `unknown` only at a number with no name.
abbrev pub IsKnown : ResponseCode → Type 0
IsKnown c = from_u8 (to_u8 c) ≡ c

pub from_u8-IsKnown : (n : ℕ) → IsKnown (from_u8 n)
from_u8-IsKnown n = ap from_u8 (to_u8-from_u8 n)
