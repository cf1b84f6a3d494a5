-- ===== src/Dnssec/Arrangement.antt =====
-- Why the order in which the records of a response arrive has no influence on the verdict of
-- `DnssecValidator`, src/dnssec/mod.rs, while the clock stands still.
use rust_dns_server.Base.{
  ℕ, ◌≡◌, ◌∙◌, refl, ap, Option, some, Bool, true, false, List, [], ◌∷◌, ◌==◌, if◌then◌else◌,
}
use mathlib.Core.List.{Permᴰ, Perm}
use mathlib.Core.Logic.{∥∥₁_elim}
use rust_dns_server.Codes.RecordType
use rust_dns_server.Rdata.{RData, rrsig, dnskey}
use rust_dns_server.Record.{DnsRecord}
use rust_dns_server.Action.{Answer, done, Action, pure, ◌>>=◌}
use rust_dns_server.Dnssec.Ring.{Crypto}
use rust_dns_server.Dnssec.{
  ValidationResult, is_secure, of_type, Signature, compute_key_tag, check_at, check_signature,
  with_key, with_rdata, verify_rrsig, unless_secure, try_keys, try_signature, unless_found,
  try_signatures, try_all, validate_response,
}
use rust_dns_server.Dnssec.Steady.{Gives, with_rdata-Gives, try_signature-Gives, validate-Gives}
use rust_dns_server.Dnssec.Canonical.{signed_data_eq, of_type_perm}

verdict_set : IsSet ValidationResult
verdict_set = hlevel

module _ (crypto : Crypto) {W : Type 0} (clock : W → Option ℕ × W) where
  with_key_eq :
      (s : Signature) (d : RData) {rs qs : List DnsRecord}
      → Permᴰ rs qs
      → with_key crypto clock s d rs ≡ with_key crypto clock s d qs
  unfolding with_key check_signature check_at
  with_key_eq s (dnskey f p a k) h = rw (signed_data_eq s h) refl
  with_key_eq s _ h = refl

  with_rdata_eq :
      (key : DnsRecord) (d : RData) {rs qs : List DnsRecord}
      → Permᴰ rs qs
      → with_rdata crypto clock d rs key ≡ with_rdata crypto clock d qs key
  unfolding with_rdata
  with_rdata_eq key (rrsig c a l t e i k n s) h = with_key_eq _ key.rdata h
  with_rdata_eq key _ h = refl

  try_keys_records :
      (sig : DnsRecord) (n : ℕ) {rs qs : List DnsRecord} (keys : List DnsRecord)
      → Permᴰ rs qs
      → try_keys crypto clock sig n rs keys ≡ try_keys crypto clock sig n qs keys
  unfolding try_keys verify_rrsig
  try_keys_records sig n [] h = refl
  try_keys_records sig n (key ∷ keys) h =
      rw (with_rdata_eq key sig.rdata h, try_keys_records sig n keys h) refl

  -- Two tests of a loop that stops at the first success, swapped.
  swap_keys :
      (a b : Bool) (m n : Action W ValidationResult) (rest : Action W Bool)
      → Gives crypto clock m
      → Gives crypto clock n
      → (if a
          then (m
              >>= unless_secure crypto clock
                  (if b then (n >>= unless_secure crypto clock rest) else rest))
          else (if b then (n >>= unless_secure crypto clock rest) else rest))
        ≡ (if b
            then (n
                >>= unless_secure crypto clock
                    (if a then (m >>= unless_secure crypto clock rest) else rest))
            else (if a then (m >>= unless_secure crypto clock rest) else rest))
  unfolding ◌>>=◌ unless_secure
  swap_keys a b m n rest (v, e) (u, f) = rw (e, f) (swap_tests a b (is_secure v) (is_secure u) rest)
    where
      swap_tests :
          (a b c d : Bool) (rest : Action W Bool)
          → (if a
              then (if c then pure true else (if b then (if d then pure true else rest) else rest))
              else (if b then (if d then pure true else rest) else rest))
            ≡ (if b
                then (if d
                    then pure true
                    else (if a then (if c then pure true else rest) else rest))
                else (if a then (if c then pure true else rest) else rest))
      swap_tests false b c d rest = refl
      swap_tests true false c d rest = refl
      swap_tests true true false d rest = refl
      swap_tests true true true false rest = refl
      swap_tests true true true true rest = refl

  swap_two :
      (m n rest : Action W Bool)
      → Gives crypto clock m
      → Gives crypto clock n
      → (m >>= unless_found crypto clock (n >>= unless_found crypto clock rest))
        ≡ (n >>= unless_found crypto clock (m >>= unless_found crypto clock rest))
  unfolding ◌>>=◌ unless_found
  swap_two m n rest (false, e) (b, f) = rw (e, f) refl
  swap_two m n rest (true, e) (false, f) = rw (e, f) refl
  swap_two m n rest (true, e) (true, f) = rw (e, f) refl

  module _ (now : ℕ) (steady : (w : W) → clock w ≡ (some now, w)) where
    try_keys_keys :
        (sig : DnsRecord) (n : ℕ) (rs : List DnsRecord) {keys ks : List DnsRecord}
        → Permᴰ keys ks
        → try_keys crypto clock sig n rs keys ≡ try_keys crypto clock sig n rs ks
    unfolding try_keys verify_rrsig
    try_keys_keys sig n rs Permᴰ.nil = refl
    try_keys_keys sig n rs (Permᴰ.cons e p) = rw (e, try_keys_keys sig n rs p) refl
    try_keys_keys sig n rs (Permᴰ.swap {a'} {b'} {l} e f) =
        rw (e, f)
          (swap_keys (compute_key_tag b' == n) (compute_key_tag a' == n) _ _
            (try_keys crypto clock sig n rs l)
            (with_rdata-Gives crypto clock now steady sig.rdata rs b')
            (with_rdata-Gives crypto clock now steady sig.rdata rs a'))
    try_keys_keys sig n rs (Permᴰ.trans p q) = try_keys_keys sig n rs p ∙ try_keys_keys sig n rs q

    try_signature_eq :
        (sig : DnsRecord) (d : RData) {rs qs keys ks : List DnsRecord}
        → Permᴰ rs qs
        → Permᴰ keys ks
        → try_signature crypto clock sig d rs keys ≡ try_signature crypto clock sig d qs ks
    unfolding try_signature
    try_signature_eq sig (rrsig c a l t e i n s g) {rs} {qs} {keys} {ks} h k =
        try_keys_records sig n keys h ∙ try_keys_keys sig n qs k
    try_signature_eq sig _ h k = refl

    try_signatures_eq :
        (sigs : List DnsRecord) {rs qs keys ks : List DnsRecord}
        → Permᴰ rs qs
        → Permᴰ keys ks
        → try_signatures crypto clock sigs rs keys ≡ try_signatures crypto clock sigs qs ks
    unfolding try_signatures
    try_signatures_eq [] h k = refl
    try_signatures_eq (sig ∷ sigs) h k =
        rw (try_signature_eq sig sig.rdata h k, try_signatures_eq sigs h k) refl

    try_all_eq :
        (sigs : List DnsRecord) {rs qs keys ks : List DnsRecord}
        → Permᴰ rs qs
        → Permᴰ keys ks
        → try_all crypto clock sigs rs keys ≡ try_all crypto clock sigs qs ks
    unfolding try_all
    try_all_eq [] h k = refl
    try_all_eq (sig ∷ sigs) h k = rw (try_signatures_eq (sig ∷ sigs) h k) refl

    try_signatures_perm :
        (rs keys : List DnsRecord) {sigs ss : List DnsRecord}
        → Permᴰ sigs ss
        → try_signatures crypto clock sigs rs keys ≡ try_signatures crypto clock ss rs keys
    unfolding try_signatures
    try_signatures_perm rs keys Permᴰ.nil = refl
    try_signatures_perm rs keys (Permᴰ.cons e p) = rw (e, try_signatures_perm rs keys p) refl
    try_signatures_perm rs keys (Permᴰ.swap {a'} {b'} {l} e f) =
        rw (e, f)
          (swap_two _ _ (try_signatures crypto clock l rs keys)
            (try_signature-Gives crypto clock now steady b' b'.rdata rs keys)
            (try_signature-Gives crypto clock now steady a' a'.rdata rs keys))
    try_signatures_perm rs keys (Permᴰ.trans p q) =
        try_signatures_perm rs keys p ∙ try_signatures_perm rs keys q

    try_all_perm :
        (rs keys : List DnsRecord) {sigs ss : List DnsRecord}
        → Permᴰ sigs ss
        → try_all crypto clock sigs rs keys ≡ try_all crypto clock ss rs keys
    unfolding try_all
    try_all_perm rs keys Permᴰ.nil = refl
    try_all_perm rs keys (Permᴰ.cons e p) = rw (try_signatures_perm rs keys (Permᴰ.cons e p)) refl
    try_all_perm rs keys (Permᴰ.swap {l} e f) =
        rw (try_signatures_perm rs keys (Permᴰ.swap {l = l} e f)) refl
    try_all_perm rs keys (Permᴰ.trans p q) = try_all_perm rs keys p ∙ try_all_perm rs keys q

    validate_eq :
        {answers others : List DnsRecord}
        → Permᴰ answers others
        → validate_response crypto clock answers ≡ validate_response crypto clock others
    unfolding validate_response
    validate_eq {answers} p =
        try_all_eq (of_type RecordType.rrsig answers) p (of_type_perm RecordType.dnskey p)
        ∙ try_all_perm _ _ (of_type_perm RecordType.rrsig p)

    pure_eq : {A : Type 0} (a b : A) (w : W) → ◌≡◌ {A = Action W A} (pure a) (pure b) → a ≡ b
    unfolding pure
    pure_eq {A} a b w h =
        let same : ◌≡◌ {A = Answer A} (done a) (done b) = ap (λ m. (m w).0) h in cc

    -- While the clock stands still, a response gets the same verdict in whatever order its records
    -- stand.
    pub validate_response-perm :
        (answers others : List DnsRecord) (w : W)
        → Perm answers others
        → validate_response crypto clock answers w ≡ validate_response crypto clock others w
    validate_response-perm answers others w p =
        let (v, e) = validate-Gives crypto clock now steady answers in
        let (u, f) = validate-Gives crypto clock now steady others in
        let same : v ≡ u =
          ∥∥₁_elim p (verdict_set v u) λ q. pure_eq v u w (rw (e, f) at (validate_eq q)) in
        rw (e, f, same) refl
