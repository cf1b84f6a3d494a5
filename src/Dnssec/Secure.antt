-- ===== src/Dnssec/Secure.antt =====
-- When `DnssecValidator` calls an answer secure, and what it never answers.
use rust_dns_server.Base.{
  ℕ, ◌%◌, ◌≤◌, ◌≡◌, ◌≢◌, refl, inl, inr, Option, some, Bool, true, false, List, [], ◌∷◌, arith, ltb,
  ◌==◌, ◌||◌, Bool-cases, Option-cases, ==_iff, Bytes,
}
use mathlib.Core.List.{Memᴰ}
use rust_dns_server.Codes.RecordType.{RecordType}
use rust_dns_server.Rdata.{RData, rrsig}
use rust_dns_server.Record.{DnsRecord}
use rust_dns_server.Action.{done, pure, panic, perform, ◌>>=◌}
use rust_dns_server.Action.Ends.{done_eq, bind-done, pure-done}
use rust_dns_server.Dnssec.Ring
use rust_dns_server.Dnssec.Ring.{Crypto, Verdict, verdict, failure, algorithm_from_u8}
use rust_dns_server.Dnssec.{
  ValidationResult, secure, insecure, bogus, indeterminate, is_secure, secure_if, of_type,
  Signature, signed_data, compute_key_tag, of_verdict, since_epoch, read_clock, check_at,
  check_signature, verify_rrsig, unless_secure, try_keys, try_signature, unless_found,
  try_signatures, try_all, validate_response,
}

or_false : (a b : Bool) → (a || b) ≡ false → (a ≡ false) × (b ≡ false)
or_false false b h = (refl, h)
or_false true b h = absurd (cc)

ltb_false→le : (a b : ℕ) → ltb a b ≡ false → b ≤ a
ltb_false→le a b h = ground arith

is_secure-secure : (v : ValidationResult) → is_secure v ≡ true → v ≡ secure
unfolding is_secure
is_secure-secure secure h = refl
is_secure-secure insecure h = absurd (cc)
is_secure-secure bogus h = absurd (cc)
is_secure-secure indeterminate h = absurd (cc)

-- Data of an RRSIG with this key tag.
unfoldable pub Tags : RData → ℕ → Type 0
Tags (rrsig covered algorithm labels ttl expiration inception key_tag signer signature) n =
    key_tag ≡ n
Tags _ n = ⊥

of_verdict-secure : (v : Verdict) → of_verdict v ≡ secure → v ≡ verdict true
unfolding of_verdict
of_verdict-secure (verdict true) h = refl
of_verdict-secure (verdict false) h = absurd (cc)
of_verdict-secure (failure e) h = absurd (cc)

module _ (crypto : Crypto) where
  check_at-secure :
      (seconds : ℕ) (s : Signature) (key : Bytes) (records : List DnsRecord)
      → check_at crypto seconds s key records ≡ secure
      → (s.inception ≤ seconds % 4294967296)
        × (seconds % 4294967296 ≤ s.expiration)
        × (Ring.verify_signature crypto
              (algorithm_from_u8 s.algorithm)
              key
              (signed_data s records)
              s.signature
            ≡ verdict true)
  unfolding check_at
  check_at-secure seconds s key records h =
      let now = seconds % 4294967296 in
      elim (Bool-cases (ltb now s.inception || ltb s.expiration now)) [
        | inl late ↦ absurd (cc (rw late at h))
        | inr timely ↦
            let (young, old) = or_false (ltb now s.inception) (ltb s.expiration now) timely in
            (
              ltb_false→le now s.inception young,
              ltb_false→le s.expiration now old,
              of_verdict-secure _ (rw timely at h),
            )
      ]

  module _ {W : Type 0} (clock : W → Option ℕ × W) where
    read_clock-done :
        (w : W) (seconds : ℕ) → (read_clock clock w).0 ≡ done seconds → (clock w).0 ≡ some seconds
    unfolding read_clock since_epoch ◌>>=◌ perform pure panic
    read_clock-done w seconds h = elim (Option-cases (clock w).0) [
      | inl before ↦ absurd (cc (rw (read_clock, before) at h))
      | inr (n, e) ↦ let same : n ≡ seconds = done_eq (rw (read_clock, e) at h) in rw (e, same) refl
    ]

    -- A signature that is called secure has the key's algorithm, is neither too young nor too old by
    -- the low 32 bits of the clock, which stands at or after the epoch, and is one that the cryptography
    -- accepts for the signed data.
    pub check_signature-secure :
        (s : Signature) (algorithm : ℕ) (key : Bytes) (records : List DnsRecord) (w : W)
        → (check_signature crypto clock s algorithm key records w).0 ≡ done secure
        → (seconds : ℕ) × ((clock w).0 ≡ some seconds)
          × (s.algorithm ≡ algorithm)
          × (s.inception ≤ seconds % 4294967296)
          × (seconds % 4294967296 ≤ s.expiration)
          × (Ring.verify_signature crypto
                (algorithm_from_u8 algorithm)
                key
                (signed_data s records)
                s.signature
              ≡ verdict true)
    unfolding check_signature
    check_signature-secure s algorithm key records w h =
        elim (Bool-cases (s.algorithm == algorithm)) [
          | inr other ↦
              absurd (cc (pure-done {W = W} bogus secure w (rw (check_signature, other) at h)))
          | inl same ↦
              let equal : s.algorithm ≡ algorithm = (==_iff s.algorithm algorithm).0 same in
              let (seconds, read, fine) =
                bind-done (read_clock clock) (λ n. pure (check_at crypto n s key records)) w secure
                  (rw (check_signature, same) at h) in
              let (young, old, accepted) =
                check_at-secure seconds s key records (pure-done _ secure _ fine) in
              (seconds, read_clock-done w seconds read, equal, young, old, rw (← equal) accepted)
        ]

    -- A key of the list that verifies the signature, with the signature's key tag, in some world.
    pub record Verifies (sig : DnsRecord) (key_tag : ℕ) (records keys : List DnsRecord)
        : Type 0 where
      pub key : DnsRecord
      pub in_keys : Memᴰ key keys
      pub same_tag : compute_key_tag key ≡ key_tag
      pub world : W
      pub verified : (verify_rrsig crypto clock sig records key world).0 ≡ done secure

    later_key :
        (sig : DnsRecord) (key_tag : ℕ) (records : List DnsRecord) (k : DnsRecord)
        (keys : List DnsRecord)
        → Verifies sig key_tag records keys
        → Verifies sig key_tag records (k ∷ keys)
    later_key sig key_tag records k keys v = record {
      key = v.key;
      in_keys = Memᴰ.tail v.in_keys;
      same_tag = v.same_tag;
      world = v.world;
      verified = v.verified;
    }

    try_keys-Verifies :
        (sig : DnsRecord) (key_tag : ℕ) (records keys : List DnsRecord) (w : W)
        → (try_keys crypto clock sig key_tag records keys w).0 ≡ done true
        → Verifies sig key_tag records keys
    unfolding try_keys unless_secure
    try_keys-Verifies sig key_tag records [] w h = absurd (cc (pure-done false true w h))
    try_keys-Verifies sig key_tag records (k ∷ keys) w h =
        elim (Bool-cases (compute_key_tag k == key_tag)) [
          | inr other ↦
              later_key sig key_tag records k keys
                (try_keys-Verifies sig key_tag records keys w (rw (try_keys, other) at h))
          | inl same ↦
              let (v, verified, found) =
                bind-done (verify_rrsig crypto clock sig records k)
                  (unless_secure crypto clock (try_keys crypto clock sig key_tag records keys)) w
                  true (rw (try_keys, same) at h) in
              elim (Bool-cases (is_secure v)) [
                | inl fine ↦ record {
                  key = k;
                  in_keys = Memᴰ.head refl;
                  same_tag = (==_iff (compute_key_tag k) key_tag).0 same;
                  world = w;
                  verified = rw (← is_secure-secure v fine) verified;
                }
                | inr not_fine ↦ later_key sig key_tag records k keys (
                    try_keys-Verifies sig key_tag records keys _
                      (rw (unless_secure, not_fine) at found))
              ]
        ]

    try_signature-Verifies :
        (sig : DnsRecord) (d : RData) (records keys : List DnsRecord) (w : W)
        → (try_signature crypto clock sig d records keys w).0 ≡ done true
        → (n : ℕ) × Tags d n × Verifies sig n records keys
    unfolding try_signature Tags
    try_signature-Verifies sig (rrsig c a l t e i key_tag n s) records keys w h =
        (key_tag, refl, try_keys-Verifies sig key_tag records keys w h)
    try_signature-Verifies sig _ records keys w h = absurd (cc (pure-done false true w h))

    try_signatures-Verifies :
        (sigs records keys : List DnsRecord) (w : W)
        → (try_signatures crypto clock sigs records keys w).0 ≡ done true
        → (sig : DnsRecord) × Memᴰ sig sigs
          × (n : ℕ) × Tags sig.rdata n
          × Verifies sig n records keys
    unfolding try_signatures unless_found
    try_signatures-Verifies [] records keys w h = absurd (cc (pure-done false true w h))
    try_signatures-Verifies (s ∷ sigs) records keys w h =
        let (found, e, after) =
          bind-done (try_signature crypto clock s s.rdata records keys)
            (unless_found crypto clock (try_signatures crypto clock sigs records keys)) w true h in
        elim (Bool-cases found) [
          | inl is_so ↦
              let (n, tag, v) = try_signature-Verifies s s.rdata records keys w (rw is_so at e) in
              (s, Memᴰ.head refl, n, tag, v)
          | inr not_so ↦
              let (sig, m, n, tag, v) =
                try_signatures-Verifies sigs records keys _ (rw (unless_found, not_so) at after) in
              (sig, Memᴰ.tail m, n, tag, v)
        ]

    try_all-secure :
        (sigs records keys : List DnsRecord) (w : W)
        → (try_all crypto clock sigs records keys w).0 ≡ done secure
        → (try_signatures crypto clock sigs records keys w).0 ≡ done true
    unfolding try_all secure_if
    try_all-secure [] records keys w h = absurd (cc (pure-done insecure secure w h))
    try_all-secure (s ∷ sigs) records keys w h =
        let (found, e, after) =
          bind-done (try_signatures crypto clock (s ∷ sigs) records keys)
            (λ found. pure (secure_if found)) w secure h in
        elim (Bool-cases found) [
          | inl is_so ↦ rw is_so at e
          | inr not_so ↦
              absurd (cc (pure-done indeterminate secure _ (rw (secure_if, not_so) at after)))
        ]

    -- A response is called secure only if one of its RRSIG records is verified by one of its DNSKEY
    -- records that has the signature's key tag.
    pub validate_response-secure :
        (answers : List DnsRecord) (w : W)
        → (validate_response crypto clock answers w).0 ≡ done secure
        → (sig : DnsRecord) × Memᴰ sig (of_type RecordType.rrsig answers)
          × (n : ℕ) × Tags sig.rdata n
          × Verifies sig n answers (of_type RecordType.dnskey answers)
    unfolding validate_response
    validate_response-secure answers w h =
        try_signatures-Verifies (of_type RecordType.rrsig answers) answers
          (of_type RecordType.dnskey answers) w
          (try_all-secure (of_type RecordType.rrsig answers) answers
            (of_type RecordType.dnskey answers) w h)

    secure_if-ne_bogus : (found : Bool) → secure_if found ≢ bogus
    unfolding secure_if
    secure_if-ne_bogus true h = cc
    secure_if-ne_bogus false h = cc

    try_all-ne_bogus :
        (sigs records keys : List DnsRecord) (w : W)
        → (try_all crypto clock sigs records keys w).0 ≢ done bogus
    unfolding try_all
    try_all-ne_bogus [] records keys w h = cc (pure-done insecure bogus w h)
    try_all-ne_bogus (s ∷ sigs) records keys w h =
        let (found, _, e) =
          bind-done (try_signatures crypto clock (s ∷ sigs) records keys)
            (λ found. pure (secure_if found)) w bogus h in
        secure_if-ne_bogus found (pure-done _ bogus _ e)

    -- No response is called bogus, also if every signature in it is forged.
    pub validate_response-ne_bogus :
        (answers : List DnsRecord) (w : W)
        → (validate_response crypto clock answers w).0 ≢ done bogus
    unfolding validate_response
    validate_response-ne_bogus answers w =
        try_all-ne_bogus (of_type RecordType.rrsig answers) answers
          (of_type RecordType.dnskey answers) w
