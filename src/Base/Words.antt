-- ===== src/Base/Words.antt =====
-- Bytes and big-endian words: `u16::to_be_bytes`, `u32::to_be_bytes`, and windows of a buffer.
use Prim.Native.Nat.{ℕ, zero, suc, ◌+◌, ◌*◌, ◌/◌, ◌%◌, ◌≤◌, ◌<◌}
use mathlib.Core.Path.{◌≡◌, refl, ap}
use mathlib.Core.List.{List, [], ◌∷◌, ◌++◌}
use mathlib.Core.Option.{some}
use native.Mathlib.Omega.{arith}
use rust_dns_server.Base.Lists.{length, get_elem?, take, drop}

abbrev pub Bytes : Type 0
Bytes = List ℕ

abbrev pub IsU8 : ℕ → Type 0
IsU8 n = n < 256

abbrev pub IsU16 : ℕ → Type 0
IsU16 n = n < 65536

abbrev pub IsU32 : ℕ → Type 0
IsU32 n = n < 4294967296

abbrev pub to_be16 : ℕ → Bytes
to_be16 n = (n / 256 % 256) ∷ (n % 256) ∷ []

abbrev pub to_be32 : ℕ → Bytes
to_be32 n = (n / 16777216 % 256) ∷ (n / 65536 % 256) ∷ (n / 256 % 256) ∷ (n % 256) ∷ []

abbrev pub from_be16 : ℕ → ℕ → ℕ
from_be16 a b = a * 256 + b

abbrev pub from_be32 : ℕ → ℕ → ℕ → ℕ → ℕ
from_be32 a b c d = a * 16777216 + b * 65536 + c * 256 + d

-- `xs` stands in `bytes` from `o` on.
abbrev pub At : Bytes → ℕ → Bytes → Type 0
At bytes o [] = o ≤ length bytes
At bytes o (x ∷ xs) = (get_elem? bytes o ≡ some x) × At bytes (o + 1) xs

pub At-eq : (bytes xs : Bytes) {o o' : ℕ} → At bytes o xs → o ≡ o' → At bytes o' xs
At-eq bytes xs h e = rw (← e) h

pub At-length : (bytes : Bytes) (o : ℕ) (xs : Bytes) → At bytes o xs → o + length xs ≤ length bytes
At-length bytes o [] h = omega arith
At-length bytes o (x ∷ xs) h = omega (arith, At-length bytes (o + 1) xs h.1)

pub At-append :
    (bytes : Bytes) (o : ℕ) (xs ys : Bytes)
    → At bytes o (xs ++ ys)
    → At bytes o xs × At bytes (o + length xs) ys
At-append bytes o [] ys h = (omega (arith, At-length bytes o ys h), At-eq _ ys h (omega arith))
At-append bytes o (x ∷ xs) ys h =
    let (a, b) = At-append bytes (o + 1) xs ys h.1 in ((h.0, a), At-eq _ ys b (omega arith))

-- The same, with the offset of the second part given in the form that the reader uses.
pub At-split :
    (bytes : Bytes) (o o' : ℕ) (xs ys : Bytes)
    → o + length xs ≡ o'
    → At bytes o (xs ++ ys)
    → At bytes o xs × At bytes o' ys
At-split bytes o o' xs ys e h = let (a, b) = At-append bytes o xs ys h in (a, At-eq bytes ys b e)

At-cons : (b : ℕ) (bytes : Bytes) (o : ℕ) (xs : Bytes) → At bytes o xs → At (b ∷ bytes) (suc o) xs
At-cons b bytes o [] h = omega arith
At-cons b bytes o (x ∷ xs) h = (
  h.0,
  At-eq (b ∷ bytes) xs {o = suc (o + 1)} {o' = suc o + 1} (At-cons b bytes (o + 1) xs h.1)
      (omega arith),
)

pub At-here : (xs rest : Bytes) → At (xs ++ rest) 0 xs
At-here [] rest = omega arith
At-here (x ∷ xs) rest = (
  refl,
  At-eq (x ∷ (xs ++ rest)) xs {o = suc 0} {o' = 0 + 1}
      (At-cons x (xs ++ rest) 0 xs (At-here xs rest)) (omega arith),
)

pub At-middle : (pre xs rest : Bytes) → At (pre ++ (xs ++ rest)) (length pre) xs
At-middle [] xs rest = At-here xs rest
At-middle (b ∷ pre) xs rest =
    At-cons b (pre ++ (xs ++ rest)) (length pre) xs (At-middle pre xs rest)

-- `&bytes[from..until]`, for `from ≤ until ≤ bytes.len()`.
abbrev pub window : Bytes → ℕ → ℕ → Bytes
window bytes start len = take len (drop start bytes)

drop_step :
    (bytes : Bytes) (o : ℕ) (x : ℕ)
    → get_elem? bytes o ≡ some x
    → drop o bytes ≡ x ∷ drop (o + 1) bytes
drop_step [] o x h = absurd (ground arith)
drop_step (b ∷ bytes) zero x h = ground arith
drop_step (b ∷ bytes) (suc o) x h = ground (arith, drop_step bytes o x)

pub At-window :
    (bytes : Bytes) (o : ℕ) (xs : Bytes) → At bytes o xs → window bytes o (length xs) ≡ xs
At-window bytes o [] h = refl
At-window bytes o (x ∷ xs) h =
    rw (drop_step bytes o x h.0) (ap (◌∷◌ x) (At-window bytes (o + 1) xs h.1))
