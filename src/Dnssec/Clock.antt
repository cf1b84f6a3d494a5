-- ===== src/Dnssec/Clock.antt =====
-- What the clock does to `DnssecValidator` of src/dnssec/mod.rs: it is read for each signature that is
-- checked against a key, and `unwrap` panics if it stands before the epoch.
use rust_dns_server.Base.{
  ℕ, ◌≡◌, ◌≢◌, refl, inl, inr, Option, none, some, Bool, true, false, not, List, [], ◌∷◌, Bytes,
  Option-cases, ◌==◌, if◌then◌else◌,
}
use rust_dns_server.Codes.RecordType
use rust_dns_server.Rdata.{RData, rrsig, dnskey}
use rust_dns_server.Record.{DnsRecord}
use rust_dns_server.Action.{Action, done, pure, perform, ◌>>=◌}
use rust_dns_server.Action.Keeps.{Runs, Runs-pure, Runs-panic, Runs-perform, Runs-bind, Runs-if}
use rust_dns_server.Dnssec.Ring.{Crypto}
use rust_dns_server.Dnssec.{
  is_secure, of_type, Signature, compute_key_tag, since_epoch, read_clock, check_signature,
  with_key, with_rdata, verify_rrsig, unless_secure, try_keys, try_signature, unless_found,
  try_signatures, try_all, validate_response,
}

module _ (crypto : Crypto) {W : Type 0} (clock : W → Option ℕ × W) where
  -- From every world the action ends with a value.
  abbrev pub Ends : {A : Type 0} → Action W A → Type 0
  Ends {A} m = (w : W) → (a : A) × ((m w).0 ≡ done a)

  Ends-pure : {A : Type 0} (a : A) → Ends (pure a)
  unfolding pure
  Ends-pure a w = (a, refl)

  Ends-bind :
      {A B : Type 0} (m : Action W A) (f : A → Action W B)
      → Ends m
      → ((a : A) → Ends (f a))
      → Ends (m >>= f)
  unfolding ◌>>=◌
  Ends-bind m f k h w = let (a, e) = k w in rw e (h a (m w).1)

  Ends-if : {A : Type 0} (b : Bool) (m n : Action W A) → Ends m → Ends n → Ends (if b then m else n)
  Ends-if true m n k h = k
  Ends-if false m n k h = h

  module _ (after : (w : W) → (clock w).0 ≢ none) where
    read_clock-Ends : Ends (read_clock clock)
    unfolding read_clock since_epoch ◌>>=◌ perform pure
    read_clock-Ends w = elim (Option-cases (clock w).0) [
      | inl before ↦ absurd (after w before)
      | inr (seconds, e) ↦ rw e (seconds, refl)
    ]

    check_signature-Ends :
        (s : Signature) (algorithm : ℕ) (key : Bytes) (records : List DnsRecord)
        → Ends (check_signature crypto clock s algorithm key records)
    unfolding check_signature
    check_signature-Ends s algorithm key records =
        Ends-if (not (s.algorithm == algorithm)) _ _ (Ends-pure _)
          (Ends-bind _ _ read_clock-Ends λ seconds. Ends-pure _)

    with_key-Ends :
        (s : Signature) (d : RData) (records : List DnsRecord)
        → Ends (with_key crypto clock s d records)
    unfolding with_key
    with_key-Ends s (dnskey f p a k) records = check_signature-Ends s a k records
    with_key-Ends s _ records = Ends-pure _

    with_rdata-Ends :
        (d : RData) (records : List DnsRecord) (key : DnsRecord)
        → Ends (with_rdata crypto clock d records key)
    unfolding with_rdata
    with_rdata-Ends (rrsig c a l t e i k n s) records key = with_key-Ends _ key.rdata records
    with_rdata-Ends _ records key = Ends-pure _

    try_keys-Ends :
        (sig : DnsRecord) (n : ℕ) (records keys : List DnsRecord)
        → Ends (try_keys crypto clock sig n records keys)
    unfolding try_keys verify_rrsig unless_secure
    try_keys-Ends sig n records [] = Ends-pure _
    try_keys-Ends sig n records (key ∷ keys) =
        let rest = try_keys-Ends sig n records keys in
        Ends-if (compute_key_tag key == n) _ _
          (Ends-bind _ _ (with_rdata-Ends sig.rdata records key)
            λ v. Ends-if (is_secure v) _ _ (Ends-pure true) rest)
          rest

    try_signature-Ends :
        (sig : DnsRecord) (d : RData) (records keys : List DnsRecord)
        → Ends (try_signature crypto clock sig d records keys)
    unfolding try_signature
    try_signature-Ends sig (rrsig c a l t e i n s g) records keys = try_keys-Ends sig n records keys
    try_signature-Ends sig _ records keys = Ends-pure _

    try_signatures-Ends :
        (sigs records keys : List DnsRecord) → Ends (try_signatures crypto clock sigs records keys)
    unfolding try_signatures unless_found
    try_signatures-Ends [] records keys = Ends-pure _
    try_signatures-Ends (sig ∷ sigs) records keys =
        Ends-bind _ _ (try_signature-Ends sig sig.rdata records keys)
          λ found. Ends-if found _ _ (Ends-pure true) (try_signatures-Ends sigs records keys)

    try_all-Ends :
        (sigs records keys : List DnsRecord) → Ends (try_all crypto clock sigs records keys)
    unfolding try_all
    try_all-Ends [] records keys = Ends-pure _
    try_all-Ends (sig ∷ sigs) records keys =
        Ends-bind _ _ (try_signatures-Ends (sig ∷ sigs) records keys) λ found. Ends-pure _

    -- If the clock never stands before the epoch then every response gets a verdict.
    pub validate_response-Ends :
        (answers : List DnsRecord) → Ends (validate_response crypto clock answers)
    unfolding validate_response
    validate_response-Ends answers = try_all-Ends (of_type RecordType.rrsig answers) answers _

  module _ {P : W → Type 0} {may_panic : Type 0} (keeps : (w : W) → P w → P (clock w).1)
      (reads : (w : W) → P w → (clock w).0 ≡ none → may_panic) where
    abbrev Safe : {A : Type 0} → Action W A → Type 0
    Safe = Runs P may_panic (λ _. Unit {0})

    since_epoch-Safe : (o : Option ℕ) → (o ≡ none → may_panic) → Safe (since_epoch o)
    unfolding since_epoch
    since_epoch-Safe none h = Runs-panic (h refl)
    since_epoch-Safe (some seconds) h = Runs-pure seconds tt

    read_clock-Safe : Safe (read_clock clock)
    unfolding read_clock
    read_clock-Safe =
        Runs-bind {Q = λ o. o ≡ none → may_panic} _ _ (Runs-perform clock keeps reads)
          since_epoch-Safe

    check_signature-Safe :
        (s : Signature) (algorithm : ℕ) (key : Bytes) (records : List DnsRecord)
        → Safe (check_signature crypto clock s algorithm key records)
    unfolding check_signature
    check_signature-Safe s algorithm key records =
        Runs-if (not (s.algorithm == algorithm)) _ _ (λ _. Runs-pure _ tt)
          (λ _. Runs-bind {Q = λ _. Unit {0}} _ _ read_clock-Safe λ seconds _. Runs-pure _ tt)

    with_key-Safe :
        (s : Signature) (d : RData) (records : List DnsRecord)
        → Safe (with_key crypto clock s d records)
    unfolding with_key
    with_key-Safe s (dnskey f p a k) records = check_signature-Safe s a k records
    with_key-Safe s _ records = Runs-pure _ tt

    with_rdata-Safe :
        (d : RData) (records : List DnsRecord) (key : DnsRecord)
        → Safe (with_rdata crypto clock d records key)
    unfolding with_rdata
    with_rdata-Safe (rrsig c a l t e i k n s) records key = with_key-Safe _ key.rdata records
    with_rdata-Safe _ records key = Runs-pure _ tt

    try_keys-Safe :
        (sig : DnsRecord) (n : ℕ) (records keys : List DnsRecord)
        → Safe (try_keys crypto clock sig n records keys)
    unfolding try_keys verify_rrsig unless_secure
    try_keys-Safe sig n records [] = Runs-pure _ tt
    try_keys-Safe sig n records (key ∷ keys) =
        let rest = try_keys-Safe sig n records keys in
        Runs-if (compute_key_tag key == n) _ _
          (λ _.
            Runs-bind {Q = λ _. Unit {0}} _ _ (with_rdata-Safe sig.rdata records key)
              λ v _. Runs-if (is_secure v) _ _ (λ _. Runs-pure true tt) (λ _. rest))
          (λ _. rest)

    try_signature-Safe :
        (sig : DnsRecord) (d : RData) (records keys : List DnsRecord)
        → Safe (try_signature crypto clock sig d records keys)
    unfolding try_signature
    try_signature-Safe sig (rrsig c a l t e i n s g) records keys = try_keys-Safe sig n records keys
    try_signature-Safe sig _ records keys = Runs-pure _ tt

    try_signatures-Safe :
        (sigs records keys : List DnsRecord) → Safe (try_signatures crypto clock sigs records keys)
    unfolding try_signatures unless_found
    try_signatures-Safe [] records keys = Runs-pure _ tt
    try_signatures-Safe (sig ∷ sigs) records keys =
        Runs-bind {Q = λ _. Unit {0}} _ _ (try_signature-Safe sig sig.rdata records keys) λ found _.
          Runs-if found _ _ (λ _. Runs-pure true tt) (λ _. try_signatures-Safe sigs records keys)

    try_all-Safe :
        (sigs records keys : List DnsRecord) → Safe (try_all crypto clock sigs records keys)
    unfolding try_all
    try_all-Safe [] records keys = Runs-pure _ tt
    try_all-Safe (sig ∷ sigs) records keys =
        Runs-bind {Q = λ _. Unit {0}} _ _ (try_signatures-Safe (sig ∷ sigs) records keys)
          λ found _. Runs-pure _ tt

    -- A validation keeps what reading the clock keeps, and panics only before the epoch.
    pub validate_response-Safe :
        (answers : List DnsRecord) → Safe (validate_response crypto clock answers)
    unfolding validate_response
    validate_response-Safe answers = try_all-Safe (of_type RecordType.rrsig answers) answers _
