-- ===== src/Reader.antt =====
-- The shape of the parsers in src/dns: `fn parse(data: &[u8], offset: &mut usize) -> Result<T, DnsError>`.
-- A parser maps the offset to an outcome. An error keeps the offset that the parser left behind,
-- since `DnsMessage::parse` goes on from there.
use rust_dns_server.Base.{
  ℕ, ◌+◌, ◌-◌, ◌≤◌, ◌<◌, ◌≡◌, refl, Bool, true, false, ◌&&◌, none, some, arith, length, get_elem?,
  leb, if◌then◌else◌, Bytes, window, from_be16, from_be32, At, to_be16, to_be32, IsU16, IsU32,
  At-length, At-window, get_elem?-lt, ◌≢◌, le→leb, Option, ap, ◌∙◌, ◌∷◌,
}
use rust_dns_server.Error.{DnsError}

-- `panic` is an index or a slice out of range. `stuck` is no outcome of the program: the model's
-- fuel ran out.
pub data Outcome {ℓ} (A : Type ℓ) : Type ℓ where
  ok : A → ℕ → Outcome A
  err : DnsError → ℕ → Outcome A
  panic : Outcome A
  stuck : Outcome A

abbrev pub Parser {ℓ} : Type ℓ → Type ℓ
Parser A = ℕ → Outcome A

infixl 5 ◌>>=◌ ◌>>◌
abbrev pub bind {ℓ κ} : {A : Type ℓ} {B : Type κ} → Outcome A → (A → Parser B) → Outcome B
bind (ok a o) f = f a o
bind (err e o) f = err e o
bind panic f = panic
bind stuck f = stuck

abbrev pub ◌>>=◌ {ℓ κ} : {A : Type ℓ} {B : Type κ} → Parser A → (A → Parser B) → Parser B
◌>>=◌ p f o = bind (p o) f

abbrev pub ◌>>◌ {ℓ} : {B : Type ℓ} → Parser (Unit {0}) → Parser B → Parser B
◌>>◌ p q o = bind (p o) (λ _. q)

abbrev pub pure {ℓ} : {A : Type ℓ} → A → Parser A
pure a o = ok a o

-- A parser at a given offset.
abbrev pub run {ℓ} : {A : Type ℓ} → ℕ → Parser A → Outcome A
run o p = p o

-- `*offset`
abbrev pub offset : Parser ℕ
offset o = ok o o

-- `*offset = o`
abbrev pub set_offset : ℕ → Parser (Unit {0})
set_offset o _ = ok tt o

-- `if !test { return Err(e); }`
abbrev pub require : Bool → DnsError → Parser (Unit {0})
require true e o = ok tt o
require false e o = err e o

-- `data[i]`
abbrev pub of_option : Option ℕ → Parser ℕ
of_option (some b) o = ok b o
of_option none o = panic

abbrev pub index : Bytes → ℕ → Parser ℕ
index bytes i = of_option (get_elem? bytes i)

-- `&data[start..until]`
abbrev pub slice : Bytes → ℕ → ℕ → Parser Bytes
slice bytes start until o =
    if leb start until && leb until (length bytes)
    then ok (window bytes start (until - start)) o
    else panic

-- `u16::from_be_bytes([data[i], data[i + 1]])`
unfoldable pub u16_at : Bytes → ℕ → Parser ℕ
u16_at bytes i = do a ← index bytes i; b ← index bytes (i + 1); pure (from_be16 a b)

-- `u32::from_be_bytes([data[i], data[i + 1], data[i + 2], data[i + 3]])`
unfoldable pub u32_at : Bytes → ℕ → Parser ℕ
u32_at bytes i = do
  a ← index bytes i
  b ← index bytes (i + 1)
  c ← index bytes (i + 2)
  d ← index bytes (i + 3)
  pure (from_be32 a b c d)

-- Total correctness of a parser: it returns, and a successful result satisfies `Q`.
abbrev pub Returns {ℓ} : {A : Type ℓ} → (A → ℕ → Type 0) → Outcome A → Type 0
Returns Q (ok a o) = Q a o
Returns Q (err e o) = Unit
Returns Q panic = ⊥
Returns Q stuck = ⊥

pub Returns-bind {ℓ κ} :
    {A : Type ℓ} {B : Type κ} (Q : A → ℕ → Type 0) (R : B → ℕ → Type 0) (m : Outcome A)
    (f : A → Parser B)
    → Returns Q m
    → ((a : A) (o : ℕ) → Q a o → Returns R (f a o))
    → Returns R (bind m f)
Returns-bind Q R (ok a o) f h k = k a o h
Returns-bind Q R (err e o) f h k = tt
Returns-bind Q R panic f h k = h
Returns-bind Q R stuck f h k = h

pub Returns-mono {ℓ} :
    {A : Type ℓ} {Q R : A → ℕ → Type 0} (m : Outcome A)
    → Returns Q m
    → ((a : A) (o : ℕ) → Q a o → R a o)
    → Returns R m
Returns-mono (ok a o) h k = k a o h
Returns-mono (err e o) h k = tt
Returns-mono panic h k = h
Returns-mono stuck h k = h

-- Reads inside the buffer.
pub index-lt : (bytes : Bytes) (i o : ℕ) → i < length bytes → (b : ℕ) × (index bytes i o ≡ ok b o)
index-lt bytes i o h = let (b, e) = get_elem?-lt bytes i h in (b, rw e refl)

pub u16_at-lt :
    (bytes : Bytes) (i o : ℕ) → i + 1 < length bytes → (n : ℕ) × (u16_at bytes i o ≡ ok n o)
unfolding u16_at
u16_at-lt bytes i o h =
    let (a, p) = get_elem?-lt bytes i (omega arith) in
    let (b, q) = get_elem?-lt bytes (i + 1) h in (from_be16 a b, rw (p, q))

pub u32_at-lt :
    (bytes : Bytes) (i o : ℕ) → i + 3 < length bytes → (n : ℕ) × (u32_at bytes i o ≡ ok n o)
unfolding u32_at
u32_at-lt bytes i o h =
    let (a, p) = get_elem?-lt bytes i (omega arith) in
    let (b, q) = get_elem?-lt bytes (i + 1) (omega arith) in
    let (c, r) = get_elem?-lt bytes (i + 2) (omega arith) in
    let (d, s) = get_elem?-lt bytes (i + 3) h in (from_be32 a b c d, rw (p, q, r, s))

pub slice-le :
    (bytes : Bytes) (a b o : ℕ)
    → a ≤ b
    → b ≤ length bytes
    → slice bytes a b o ≡ ok (window bytes a (b - a)) o
slice-le bytes a b o h k = rw (le→leb a b h, le→leb b (length bytes) k)

-- Reads of what a writer left at an offset.
pub index-At :
    (bytes : Bytes) (i b o : ℕ) (rest : Bytes) → At bytes i (b ∷ rest) → index bytes i o ≡ ok b o
index-At bytes i b o rest h = rw (h.0) refl

pub u16_at-At :
    (bytes : Bytes) (i n o : ℕ) → IsU16 n → At bytes i (to_be16 n) → u16_at bytes i o ≡ ok n o
unfolding u16_at
u16_at-At bytes i n o h w = rw (w.0, w.1.0) (ground arith)

pub u32_at-At :
    (bytes : Bytes) (i n o : ℕ) → IsU32 n → At bytes i (to_be32 n) → u32_at bytes i o ≡ ok n o
unfolding u32_at
u32_at-At bytes i n o h w = ground arith

pub slice-At :
    (bytes : Bytes) (a b o : ℕ) (xs : Bytes)
    → At bytes a xs
    → b ≡ a + length xs
    → slice bytes a b o ≡ ok xs o
slice-At bytes a b o xs h e =
    slice-le bytes a b o (omega arith) (omega (arith, At-length bytes a xs h))
    ∙ ap (λ (w : Bytes). ok w o) (rw (sub_eq) (At-window bytes a xs h))
  where
    sub_eq : b - a ≡ length xs
    sub_eq = omega arith

-- Inversion of a successful bind.
pub bind-eq-ok {ℓ κ} :
    {A : Type ℓ} {B : Type κ} (m : Outcome A) (f : A → Parser B) {b : B} {o : ℕ}
    → bind m f ≡ ok b o
    → (a : A) × (o' : ℕ) × (m ≡ ok a o') × (f a o' ≡ ok b o)
bind-eq-ok (ok a o') f h = (a, o', refl, h)
bind-eq-ok (err e o') f h = absurd (cc)
bind-eq-ok panic f h = absurd (cc)
bind-eq-ok stuck f h = absurd (cc)

-- Termination of a parser: it returns, or panics.
abbrev pub Ends {ℓ} : {A : Type ℓ} → Outcome A → Type 0
Ends stuck = ⊥
Ends _ = Unit

pub Ends-bind {ℓ κ} :
    {A : Type ℓ} {B : Type κ} (m : Outcome A) (f : A → Parser B)
    → Ends m
    → ((a : A) (o : ℕ) → Ends (f a o))
    → Ends (bind m f)
Ends-bind (ok a o) f h k = k a o
Ends-bind (err e o) f h k = tt
Ends-bind panic f h k = tt
Ends-bind stuck f h k = h

pub Returns-Ends {ℓ} : {A : Type ℓ} (Q : A → ℕ → Type 0) (m : Outcome A) → Returns Q m → Ends m
Returns-Ends Q (ok a o) h = tt
Returns-Ends Q (err e o) h = tt
Returns-Ends Q panic h = tt
Returns-Ends Q stuck h = h

pub Ends-ne_stuck {ℓ} : {A : Type ℓ} (m : Outcome A) → Ends m → m ≢ stuck
Ends-ne_stuck (ok a o) h e = cc
Ends-ne_stuck (err x o) h e = cc
Ends-ne_stuck panic h e = cc
Ends-ne_stuck stuck h e = h

pub require-Ends : (b : Bool) (e : DnsError) (o : ℕ) → Ends (require b e o)
require-Ends true e o = tt
require-Ends false e o = tt

of_option-Ends : (b : Option ℕ) (o : ℕ) → Ends (of_option b o)
of_option-Ends (some b) o = tt
of_option-Ends none o = tt

pub index-Ends : (bytes : Bytes) (i o : ℕ) → Ends (index bytes i o)
index-Ends bytes i o = of_option-Ends (get_elem? bytes i) o

pub u16_at-Ends : (bytes : Bytes) (i o : ℕ) → Ends (u16_at bytes i o)
unfolding u16_at
u16_at-Ends bytes i o =
    Ends-bind (index bytes i o) _ (index-Ends bytes i o)
      λ a p. Ends-bind (index bytes (i + 1) p) _ (index-Ends bytes (i + 1) p) λ b q. tt

pub u32_at-Ends : (bytes : Bytes) (i o : ℕ) → Ends (u32_at bytes i o)
unfolding u32_at
u32_at-Ends bytes i o = Ends-bind (index bytes i o) _ (index-Ends bytes i o) λ a p.
    Ends-bind (index bytes (i + 1) p) _ (index-Ends bytes (i + 1) p) λ b q.
      Ends-bind (index bytes (i + 2) q) _ (index-Ends bytes (i + 2) q)
        λ c r. Ends-bind (index bytes (i + 3) r) _ (index-Ends bytes (i + 3) r) λ d s. tt

pub slice-Ends : (bytes : Bytes) (start until o : ℕ) → Ends (slice bytes start until o)
slice-Ends bytes start until o = if_Ends (leb start until && leb until (length bytes))
  where
    if_Ends : (b : Bool) → Ends (if b then ok (window bytes start (until - start)) o else panic)
    if_Ends true = tt
    if_Ends false = tt
