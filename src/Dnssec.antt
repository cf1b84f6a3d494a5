-- ===== src/Dnssec.antt =====
-- `DnssecValidator` of src/dnssec/mod.rs. The cryptography of the crate `ring` is a parameter.
pub mod Ring
pub mod Clock
pub mod Steady
pub mod Secure
pub mod Delegation
pub mod Canonical
pub mod Arrangement
use Prim.Native.String.{String}
use rust_dns_server.Base.{
  ℕ, ◌+◌, ◌*◌, ◌/◌, ◌%◌, Option, none, some, Bool, true, false, not, ◌||◌, List, [], ◌∷◌, ◌++◌,
  length, take, drop, ltb, leb, ◌==◌, if◌then◌else◌, Bytes, to_be16, to_be32, from_be16,
}
use rust_dns_server.Name.{DnsName, to_wire, text_eq}
use rust_dns_server.Codes.RecordType
use rust_dns_server.Codes.RecordType.{RecordType, type_eq}
use rust_dns_server.Codes.RecordClass
use rust_dns_server.Rdata
use rust_dns_server.Rdata.{RData, ds, dnskey, rrsig}
use rust_dns_server.Record.{DnsRecord}
use rust_dns_server.Action.{Action, panic, pure, perform, ◌>>=◌}
use rust_dns_server.Dnssec.Ring.{
  Crypto, DigestType, Algorithm, Verdict, verdict, failure, digest_from_u8, algorithm_from_u8, sha1,
  sha256, sha384, unknown,
}

pub data ValidationResult : Type 0 where
  secure insecure bogus indeterminate : ValidationResult

unfoldable pub is_secure : ValidationResult → Bool
is_secure secure = true
is_secure _ = false

-- The order of `Vec<u8>`, and `sort()`: the sorted list is the same for every sorting routine, since
-- equal byte strings cannot be told apart.
unfoldable pub bytes_le : Bytes → Bytes → Bool
bytes_le [] ys = true
bytes_le (x ∷ xs) [] = false
bytes_le (x ∷ xs) (y ∷ ys) = if ltb x y then true else if x == y then bytes_le xs ys else false

unfoldable pub insert_sorted : Bytes → List Bytes → List Bytes
insert_sorted w [] = w ∷ []
insert_sorted w (v ∷ vs) = if bytes_le w v then w ∷ (v ∷ vs) else v ∷ insert_sorted w vs

unfoldable pub sort : List Bytes → List Bytes
sort [] = []
sort (w ∷ ws) = insert_sorted w (sort ws)

unfoldable pub concat : List Bytes → Bytes
concat [] = []
concat (w ∷ ws) = w ++ concat ws

-- `records.iter().filter(|r| r.record_type == record_type)`
unfoldable pub of_type : RecordType → List DnsRecord → List DnsRecord
of_type record_type [] = []
of_type record_type (r ∷ rs) =
    if type_eq r.record_type record_type then r ∷ of_type record_type rs else of_type record_type rs

-- The canonical wire form of a record, with the TTL of the signature.
unfoldable pub canonical : ℕ → DnsRecord → Bytes
canonical original_ttl r =
    let rdata = Rdata.serialize r.rdata in
    to_wire r.name
    ++ (to_be16 (RecordType.to_u16 r.record_type)
        ++ (to_be16 (RecordClass.to_u16 r.record_class)
            ++ (to_be32 original_ttl ++ (to_be16 (length rdata % 65536) ++ rdata))))

unfoldable pub canonical_all : ℕ → List DnsRecord → List Bytes
canonical_all original_ttl [] = []
canonical_all original_ttl (r ∷ rs) = canonical original_ttl r ∷ canonical_all original_ttl rs

-- The fields of an RRSIG that `verify_rrsig` reads.
pub record Signature : Type 0 where
  pub type_covered : RecordType
  pub algorithm : ℕ
  pub labels : ℕ
  pub original_ttl : ℕ
  pub expiration : ℕ
  pub inception : ℕ
  pub key_tag : ℕ
  pub signer_name : DnsName
  pub signature : Bytes

unfoldable pub signed_data : Signature → List DnsRecord → Bytes
signed_data s records =
    to_be16 (RecordType.to_u16 s.type_covered)
    ++ (s.algorithm
        ∷ s.labels
        ∷ (to_be32 s.original_ttl
            ++ (to_be32 s.expiration
                ++ (to_be32 s.inception
                    ++ (to_be16 s.key_tag
                        ++ (to_wire s.signer_name
                            ++ concat (
                                sort (
                                  canonical_all s.original_ttl
                                    (of_type s.type_covered records)))))))))

-- The sum of `compute_key_tag`: a byte at an even index counts 256 times. `even` is `i & 1 == 0`.
unfoldable pub tag_sum : Bool → Bytes → ℕ → ℕ
tag_sum even [] ac = ac
tag_sum even (b ∷ bytes) ac =
    tag_sum (not even) bytes ((ac + (if even then b * 256 else b)) % 4294967296)

unfoldable pub key_tag_of : Bytes → ℕ
key_tag_of rdata = let ac = tag_sum true rdata 0 in (ac + ac / 65536 % 65536) % 4294967296 % 65536

unfoldable pub compute_key_tag : DnsRecord → ℕ
compute_key_tag key = key_tag_of (Rdata.serialize key.rdata)

unfoldable pub of_verdict : Verdict → ValidationResult
of_verdict (verdict true) = secure
of_verdict (verdict false) = bogus
of_verdict (failure e) = indeterminate

-- `duration_since(UNIX_EPOCH).unwrap()`: there is no value before the epoch.
unfoldable pub since_epoch : {W : Type 0} → Option ℕ → Action W ℕ
since_epoch none = panic
since_epoch (some seconds) = pure seconds

unfoldable pub read_clock : {W : Type 0} → (W → Option ℕ × W) → Action W ℕ
read_clock clock = perform clock >>= since_epoch

unfoldable pub secure_if : Bool → ValidationResult
secure_if true = secure
secure_if false = indeterminate

module _ (crypto : Crypto) where
  -- What follows the reading of the clock, which the code takes `as u32`.
  unfoldable pub check_at : ℕ → Signature → Bytes → List DnsRecord → ValidationResult
  check_at seconds s public_key records =
      let now = seconds % 4294967296 in
      if ltb now s.inception || ltb s.expiration now
      then bogus
      else of_verdict (
          Ring.verify_signature crypto (algorithm_from_u8 s.algorithm) public_key
            (signed_data s records) s.signature)

  -- `clock` is `SystemTime::now` in seconds since the epoch. Every signature that is checked reads it.
  module _ {W : Type 0} (clock : W → Option ℕ × W) where
    unfoldable pub check_signature :
        Signature → (algorithm : ℕ) → Bytes → List DnsRecord → Action W ValidationResult
    check_signature s algorithm public_key records =
        if not (s.algorithm == algorithm)
        then pure bogus
        else (read_clock clock >>= λ seconds. pure (check_at seconds s public_key records))

    unfoldable pub with_key : Signature → RData → List DnsRecord → Action W ValidationResult
    with_key s (dnskey flags protocol algorithm public_key) records =
        check_signature s algorithm public_key records
    with_key s _ records = pure bogus

    unfoldable pub with_rdata : RData → List DnsRecord → DnsRecord → Action W ValidationResult
    with_rdata (rrsig covered algorithm labels ttl expiration inception key_tag signer signature)
          records key =
        with_key
          (record {
            type_covered = covered;
            algorithm = algorithm;
            labels = labels;
            original_ttl = ttl;
            expiration = expiration;
            inception = inception;
            key_tag = key_tag;
            signer_name = signer;
            signature = signature;
          })
          key.rdata records
    with_rdata _ records key = pure bogus

    unfoldable pub verify_rrsig : DnsRecord → List DnsRecord → DnsRecord → Action W ValidationResult
    verify_rrsig sig records key = with_rdata sig.rdata records key

    -- The loop over the keys for one signature: does one of them verify it? `return` at the first.
    unfoldable pub unless_secure : Action W Bool → ValidationResult → Action W Bool
    unless_secure rest v = if is_secure v then pure true else rest

    unfoldable pub try_keys :
        DnsRecord → (key_tag : ℕ) → List DnsRecord → List DnsRecord → Action W Bool
    try_keys sig key_tag records [] = pure false
    try_keys sig key_tag records (key ∷ keys) =
        let rest = try_keys sig key_tag records keys in
        if compute_key_tag key == key_tag
        then (verify_rrsig sig records key >>= unless_secure rest)
        else rest

    -- `key_tag` of the signature; other data is skipped.
    unfoldable pub try_signature :
        DnsRecord → RData → List DnsRecord → List DnsRecord → Action W Bool
    try_signature sig
          (rrsig covered algorithm labels ttl expiration inception key_tag signer signature) records
          keys =
        try_keys sig key_tag records keys
    try_signature sig _ records keys = pure false

    unfoldable pub unless_found : Action W Bool → Bool → Action W Bool
    unless_found rest found = if found then pure true else rest

    unfoldable pub try_signatures : List DnsRecord → List DnsRecord → List DnsRecord → Action W Bool
    try_signatures [] records keys = pure false
    try_signatures (sig ∷ sigs) records keys =
        try_signature sig sig.rdata records keys >>= unless_found (try_signatures sigs records keys)

    unfoldable pub try_all :
        List DnsRecord → List DnsRecord → List DnsRecord → Action W ValidationResult
    try_all [] records keys = pure insecure
    try_all (sig ∷ sigs) records keys =
        try_signatures (sig ∷ sigs) records keys >>= λ found. pure (secure_if found)

    unfoldable pub validate_response : List DnsRecord → Action W ValidationResult
    validate_response answers =
        try_all (of_type RecordType.rrsig answers) answers (of_type RecordType.dnskey answers)

  -- `none` for an unknown digest type.
  unfoldable pub digest_of : DigestType → Bytes → Option Bytes
  digest_of sha1 input = some (crypto.sha1_digest input)
  digest_of sha256 input = some (crypto.sha256_digest input)
  digest_of sha384 input = some (crypto.sha384_digest input)
  digest_of (unknown n) input = none

  unfoldable pub same_digest : Option Bytes → Bytes → Bool
  same_digest none digest = false
  same_digest (some computed) digest = text_eq computed digest

  -- Both records' data, by the arms of the two matches.
  unfoldable pub ds_matches : RData → RData → DnsRecord → Bool
  ds_matches (ds key_tag algorithm digest_type digest)
        (dnskey flags protocol key_algorithm public_key) key =
      if not (algorithm == key_algorithm)
      then false
      else if not (key_tag == compute_key_tag key)
      then false
      else same_digest
          (digest_of (digest_from_u8 digest_type) (to_wire key.name ++ Rdata.serialize key.rdata))
          digest
  ds_matches _ _ key = false

  unfoldable pub verify_ds : DnsRecord → DnsRecord → Bool
  verify_ds d key = ds_matches d.rdata key.rdata key
