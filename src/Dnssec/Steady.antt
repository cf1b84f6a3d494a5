-- ===== src/Dnssec/Steady.antt =====
-- The functions of `DnssecValidator`, src/dnssec/mod.rs, while the clock stands still: each only gives a
-- value.
use mathlib.Core.Path.{fun_ext}
use rust_dns_server.Base.{
  ℕ, ◌≡◌, refl, Option, some, Bool, true, false, not, List, [], ◌∷◌, Bytes, ◌==◌, if◌then◌else◌,
}
use rust_dns_server.Codes.RecordType
use rust_dns_server.Rdata.{RData, rrsig, dnskey}
use rust_dns_server.Record.{DnsRecord}
use rust_dns_server.Action.{Action, pure, perform, ◌>>=◌}
use rust_dns_server.Dnssec.Ring.{Crypto}
use rust_dns_server.Dnssec.{
  insecure, bogus, is_secure, of_type, Signature, compute_key_tag, since_epoch, read_clock,
  check_signature, with_key, with_rdata, verify_rrsig, unless_secure, try_keys, try_signature,
  unless_found, try_signatures, try_all, validate_response,
}

module _ (crypto : Crypto) {W : Type 0} (clock : W → Option ℕ × W) where
  -- The action does nothing but give a value.
  abbrev pub Gives : {A : Type 0} → Action W A → Type 0
  Gives {A} m = (a : A) × (m ≡ pure a)

  Gives-bind :
      {A B : Type 0} (m : Action W A) (f : A → Action W B)
      → Gives m
      → ((a : A) → Gives (f a))
      → Gives (m >>= f)
  unfolding ◌>>=◌
  Gives-bind m f (a, e) h = rw e (h a)

  Gives-if :
      {A : Type 0} (b : Bool) (m n : Action W A) → Gives m → Gives n → Gives (if b then m else n)
  Gives-if true m n k h = k
  Gives-if false m n k h = h

  module _ (now : ℕ) (steady : (w : W) → clock w ≡ (some now, w)) where
    read_clock-Gives : Gives (read_clock clock)
    unfolding read_clock since_epoch ◌>>=◌ perform
    read_clock-Gives = (now, fun_ext λ w. rw (read_clock, steady w) refl)

    check_signature-Gives :
        (s : Signature) (algorithm : ℕ) (key : Bytes) (rs : List DnsRecord)
        → Gives (check_signature crypto clock s algorithm key rs)
    unfolding check_signature
    check_signature-Gives s algorithm key rs =
        Gives-if (not (s.algorithm == algorithm)) _ _ (bogus, refl)
          (Gives-bind _ _ read_clock-Gives λ seconds. (_, refl))

    with_key-Gives :
        (s : Signature) (d : RData) (rs : List DnsRecord) → Gives (with_key crypto clock s d rs)
    unfolding with_key
    with_key-Gives s (dnskey f p a k) rs = check_signature-Gives s a k rs
    with_key-Gives s _ rs = (bogus, refl)

    pub with_rdata-Gives :
        (d : RData) (rs : List DnsRecord) (key : DnsRecord)
        → Gives (with_rdata crypto clock d rs key)
    unfolding with_rdata
    with_rdata-Gives (rrsig c a l t e i k n s) rs key = with_key-Gives _ key.rdata rs
    with_rdata-Gives _ rs key = (bogus, refl)

    try_keys-Gives :
        (sig : DnsRecord) (n : ℕ) (rs keys : List DnsRecord)
        → Gives (try_keys crypto clock sig n rs keys)
    unfolding try_keys verify_rrsig unless_secure
    try_keys-Gives sig n rs [] = (false, refl)
    try_keys-Gives sig n rs (key ∷ keys) =
        let rest = try_keys-Gives sig n rs keys in
        Gives-if (compute_key_tag key == n) _ _
          (Gives-bind _ _ (with_rdata-Gives sig.rdata rs key)
            λ v. Gives-if (is_secure v) _ _ (true, refl) rest)
          rest

    pub try_signature-Gives :
        (sig : DnsRecord) (d : RData) (rs keys : List DnsRecord)
        → Gives (try_signature crypto clock sig d rs keys)
    unfolding try_signature
    try_signature-Gives sig (rrsig c a l t e i n s g) rs keys = try_keys-Gives sig n rs keys
    try_signature-Gives sig _ rs keys = (false, refl)

    try_signatures-Gives :
        (sigs rs keys : List DnsRecord) → Gives (try_signatures crypto clock sigs rs keys)
    unfolding try_signatures unless_found
    try_signatures-Gives [] rs keys = (false, refl)
    try_signatures-Gives (sig ∷ sigs) rs keys =
        Gives-bind _ _ (try_signature-Gives sig sig.rdata rs keys)
          λ found. Gives-if found _ _ (true, refl) (try_signatures-Gives sigs rs keys)

    try_all-Gives : (sigs rs keys : List DnsRecord) → Gives (try_all crypto clock sigs rs keys)
    unfolding try_all
    try_all-Gives [] rs keys = (insecure, refl)
    try_all-Gives (sig ∷ sigs) rs keys =
        Gives-bind _ _ (try_signatures-Gives (sig ∷ sigs) rs keys) λ found. (_, refl)

    pub validate-Gives : (answers : List DnsRecord) → Gives (validate_response crypto clock answers)
    unfolding validate_response
    validate-Gives answers = try_all-Gives (of_type RecordType.rrsig answers) answers _
