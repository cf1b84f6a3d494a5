-- ===== src/Tests/Validators.antt =====
-- The DNSSEC validator: a run, and its theorems at concrete inputs.
use rust_dns_server.Base.{
  ℕ, ◌%◌, ◌≤◌, ◌≡◌, ◌≢◌, refl, Option, none, some, true, false, List, [], ◌∷◌,
}
use mathlib.Core.List.{Memᴰ}
use mathlib.Core.List.Perm
use rust_dns_server.Rdata
use rust_dns_server.Rdata.{ds, dnskey, rrsig}
use rust_dns_server.Codes.RecordType
use rust_dns_server.Codes.RecordClass
use rust_dns_server.Record.{DnsRecord}
use rust_dns_server.Action.{done, panicked, pure, panic, perform, ◌>>=◌}
use rust_dns_server.Dnssec.Ring.{
  Crypto, verdict, algorithm_from_u8, digest_from_u8, rsa_split, verify_rsa, long_exponent,
  verify_signature,
}
use rust_dns_server.Dnssec.{
  secure, bogus, is_secure, of_type, Signature, signed_data, tag_sum, key_tag_of, compute_key_tag,
  of_verdict, secure_if, since_epoch, read_clock, check_at, check_signature, with_key, with_rdata,
  verify_rrsig, unless_secure, try_keys, try_signature, unless_found, try_signatures, try_all,
  validate_response, digest_of, same_digest, ds_matches, verify_ds,
}
use rust_dns_server.Dnssec.Secure.{
  Tags, Verifies, check_signature-secure, validate_response-secure, validate_response-ne_bogus,
}
use rust_dns_server.Name.{text_eq}
use rust_dns_server.Dnssec.Arrangement.{validate_response-perm}
use rust_dns_server.Dnssec.Delegation.{Vouches, verify_ds-Vouches}
use rust_dns_server.Tests.Data.{www_ab, address}

-- Accepts every RSA signature, and no other.
abbrev pub lenient : Crypto
lenient = record {
  rsa = λ parameters modulus exponent signed signature. true;
  ecdsa_p256 = λ key signed signature. false;
  ecdsa_p384 = λ key signed signature. false;
  ed25519_verify = λ key signed signature. false;
  sha1_digest = λ input. [];
  sha256_digest = λ input. [];
  sha384_digest = λ input. [];
}

-- A clock that stands still.
abbrev at : ℕ → Unit {0} → Option ℕ × Unit {0}
at seconds w = (some seconds, w)

-- A clock before the epoch.
abbrev early : Unit {0} → Option ℕ × Unit {0}
early w = (none, w)

abbrev zone_key : DnsRecord
zone_key = record {
  name = www_ab;
  record_type = RecordType.dnskey;
  record_class = RecordClass.in_class;
  ttl = 60;
  rdata = dnskey 256 3 8 (1 ∷ 3 ∷ 9 ∷ []);
}

-- 256 + 3 * 256 + 8 + 1 * 256 + 3 + 9 * 256, the tag of `zone_key`.
abbrev zone_tag : ℕ
zone_tag = 3595

abbrev seal : DnsRecord
seal = record {
  name = www_ab;
  record_type = RecordType.rrsig;
  record_class = RecordClass.in_class;
  ttl = 60;
  rdata = rrsig RecordType.a 8 2 60 900 100 zone_tag www_ab (5 ∷ []);
}

abbrev answers : List DnsRecord
answers = address ∷ seal ∷ zone_key ∷ []

runs : Unit {0}
unfolding of_type RecordType.type_eq RecordType.discrete Rdata.serialize tag_sum key_tag_of
    compute_key_tag of_verdict is_secure algorithm_from_u8 rsa_split long_exponent verify_rsa
    verify_signature since_epoch read_clock secure_if unless_secure unless_found check_at
    check_signature with_key with_rdata verify_rrsig try_keys try_signature pure panic perform ◌>>=◌
    try_signatures try_all validate_response
runs = tt

tag_run : compute_key_tag zone_key ≡ zone_tag
unfolding runs
tag_run = refl

early_run : (validate_response lenient early answers tt).0 ≡ panicked
unfolding runs
early_run = refl

secure_run : (validate_response lenient (at 500) answers tt).0 ≡ done secure
unfolding runs
secure_run = refl

abbrev signature : Signature
signature = record {
  type_covered = RecordType.a;
  algorithm = 8;
  labels = 2;
  original_ttl = 60;
  expiration = 900;
  inception = 100;
  key_tag = zone_tag;
  signer_name = www_ab;
  signature = 5 ∷ [];
}

check_run :
    (check_signature lenient (at 500) signature 8 (1 ∷ 3 ∷ 9 ∷ []) answers tt).0 ≡ done secure
unfolding runs
check_run = refl

check_signature-secure_example :
    (seconds : ℕ) × (some 500 ≡ some seconds)
    × (signature.algorithm ≡ 8)
    × (100 ≤ seconds % 4294967296)
    × (seconds % 4294967296 ≤ 900)
    × (verify_signature lenient
          (algorithm_from_u8 8)
          (1 ∷ 3 ∷ 9 ∷ [])
          (signed_data signature answers)
          (5 ∷ [])
        ≡ verdict true)
check_signature-secure_example =
    check_signature-secure lenient (at 500) signature 8 (1 ∷ 3 ∷ 9 ∷ []) answers tt check_run

validate_response-secure_example :
    (sig : DnsRecord) × Memᴰ sig (of_type RecordType.rrsig answers)
    × (n : ℕ) × Tags sig.rdata n
    × Verifies lenient (at 500) sig n answers (of_type RecordType.dnskey answers)
validate_response-secure_example = validate_response-secure lenient (at 500) answers tt secure_run

validate_response-ne_bogus_example : (validate_response lenient (at 5000) answers tt).0 ≢ done bogus
validate_response-ne_bogus_example = validate_response-ne_bogus lenient (at 5000) answers tt

abbrev delegation : DnsRecord
delegation = record {
  name = www_ab;
  record_type = RecordType.ds;
  record_class = RecordClass.in_class;
  ttl = 60;
  rdata = ds zone_tag 8 2 [];
}

-- The digests of `lenient` are empty.
ds_run : verify_ds lenient delegation zone_key ≡ true
unfolding runs digest_from_u8 digest_of same_digest ds_matches verify_ds text_eq
ds_run = refl

verify_ds-Vouches_example : Vouches lenient delegation.rdata zone_key.rdata zone_key
verify_ds-Vouches_example = verify_ds-Vouches lenient delegation zone_key ds_run

validate_response-perm_example :
    validate_response lenient (at 500) (address ∷ seal ∷ zone_key ∷ []) tt
    ≡ validate_response lenient (at 500) (seal ∷ address ∷ zone_key ∷ []) tt
validate_response-perm_example =
    validate_response-perm lenient (at 500) 500 (λ w. refl) (address ∷ seal ∷ zone_key ∷ [])
      (seal ∷ address ∷ zone_key ∷ []) tt (Perm.swap seal address (zone_key ∷ []))
