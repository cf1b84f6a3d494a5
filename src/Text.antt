-- ===== src/Text.antt =====
-- `String` values as their UTF-8 bytes, and the Unicode functions of Rust's standard library that
-- src/dns/name.rs and src/dns/rdata.rs call on them. The Unicode case tables are not written out:
-- the functions are an instance argument, with what the standard library documents of them on
-- ASCII text.
use Prim.Native.Char.{code}
use Prim.Native.String as Literal
use Prim.Native.String.{String}
use rust_dns_server.Base.{
  ℕ, zero, suc, ◌+◌, ◌-◌, ◌/◌, ◌%◌, ◌<◌, ◌≡◌, refl, ◌&&◌, List, [], ◌∷◌, ◌++◌, map, All, ltb, leb,
  if◌then◌else◌,
}

abbrev pub Text : Type 0
Text = List ℕ

-- The bytes of a literal of ASCII characters.
unfoldable pub ascii : String → Text
ascii Literal.[] = []
ascii (Literal.◌∷◌ c s) = code c ∷ ascii s

-- A number in decimal, as `{}` prints it: twenty digits are enough for a `u64`.
unfoldable pub digits : (fuel : ℕ) → ℕ → Text
digits zero n = []
digits (suc fuel) n =
    let higher = digits fuel (n / 10) in
    if ltb n 10 then (n + 48) ∷ [] else higher ++ ((n % 10 + 48) ∷ [])

unfoldable pub decimal : ℕ → Text
unfolding digits
decimal n = digits 20 n

abbrev pub IsAscii : Text → Type 0
IsAscii = All (λ c. c < 128)

-- `u8::to_ascii_lowercase`, `u8::to_ascii_uppercase`
abbrev pub ascii_lower : ℕ → ℕ
ascii_lower c = if leb 65 c && leb c 90 then c + 32 else c

abbrev pub ascii_upper : ℕ → ℕ
ascii_upper c = if leb 97 c && leb c 122 then c - 32 else c

pub record TextLib : Type 0 where
  -- `str::to_lowercase`, `str::to_uppercase`, `String::from_utf8_lossy`
  pub to_lowercase : Text → Text
  pub to_uppercase : Text → Text
  pub from_utf8_lossy : List ℕ → Text
  pub to_lowercase-ascii : (s : Text) → IsAscii s → to_lowercase s ≡ map ascii_lower s
  pub to_uppercase-ascii : (s : Text) → IsAscii s → to_uppercase s ≡ map ascii_upper s
  pub from_utf8_lossy-ascii : (s : List ℕ) → IsAscii s → from_utf8_lossy s ≡ s

-- The instance for ASCII text, on which concrete runs are made.
instance abbrev pub ascii_text : TextLib
ascii_text = record {
  to_lowercase = map ascii_lower;
  to_uppercase = map ascii_upper;
  from_utf8_lossy = λ s. s;
  to_lowercase-ascii = λ s h. refl;
  to_uppercase-ascii = λ s h. refl;
  from_utf8_lossy-ascii = λ s h. refl;
}
