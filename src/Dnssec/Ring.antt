-- ===== src/Dnssec/Ring.antt =====
-- The algorithms of src/dnssec/mod.rs, and the checks of key and signature formats in front of the
-- crate `ring`, whose functions are the fields of `Crypto`.
use Prim.Native.String.{String}
use rust_dns_server.Base.{
  ℕ, Bool, not, [], ◌∷◌, length, take, drop, leb, ◌==◌, if◌then◌else◌, Bytes, from_be16,
}

pub data Algorithm : Type 0 where
  rsa_sha1 rsa_sha256 rsa_sha512 ecdsa_p256_sha256 ecdsa_p384_sha384 ed25519 : Algorithm
  unknown : ℕ → Algorithm

unfoldable pub algorithm_from_u8 : ℕ → Algorithm
algorithm_from_u8 n =
    if n == 5
    then rsa_sha1
    else if n == 8
    then rsa_sha256
    else if n == 10
    then rsa_sha512
    else if n == 13
    then ecdsa_p256_sha256
    else if n == 14
    then ecdsa_p384_sha384
    else if n == 15
    then ed25519
    else unknown n

pub data DigestType : Type 0 where
  sha1 sha256 sha384 : DigestType
  unknown : ℕ → DigestType

unfoldable pub digest_from_u8 : ℕ → DigestType
digest_from_u8 n =
    if n == 1 then sha1 else if n == 2 then sha256 else if n == 4 then sha384 else unknown n

-- `Result<bool, String>`
pub data Verdict : Type 0 where
  verdict : Bool → Verdict
  failure : String → Verdict

-- The two `RsaParameters` that are used.
pub data RsaParameters : Type 0 where
  pkcs1_sha256 pkcs1_sha512 : RsaParameters

-- `ring`: each function verifies a signature, or computes a digest. The arguments of a verification are
-- the key, the signed data and the signature.
pub record Crypto : Type 0 where
  pub rsa : RsaParameters → (modulus exponent : Bytes) → Bytes → Bytes → Bool
  pub ecdsa_p256 : Bytes → Bytes → Bytes → Bool
  pub ecdsa_p384 : Bytes → Bytes → Bytes → Bool
  pub ed25519_verify : Bytes → Bytes → Bytes → Bool
  pub sha1_digest : Bytes → Bytes
  pub sha256_digest : Bytes → Bytes
  pub sha384_digest : Bytes → Bytes

module _ (crypto : Crypto) where
  -- Behind the length of the exponent: `key` starts with the exponent.
  unfoldable pub rsa_split : RsaParameters → ℕ → Bytes → Bytes → Bytes → Verdict
  rsa_split params exp_len key signed signature =
      if leb (length key) exp_len
      then failure "Invalid RSA key structure"
      else verdict (crypto.rsa params (drop exp_len key) (take exp_len key) signed signature)

  -- The exponent's length takes one byte, or a zero byte and two.
  unfoldable pub long_exponent : RsaParameters → Bytes → Bytes → Bytes → Verdict
  long_exponent params (high ∷ low ∷ key) signed signature =
      rsa_split params (from_be16 high low) key signed signature
  long_exponent params _ signed signature = failure "RSA key too short"

  unfoldable pub verify_rsa : RsaParameters → Bytes → Bytes → Bytes → Verdict
  verify_rsa params [] signed signature = failure "Empty public key"
  verify_rsa params (first ∷ key) signed signature =
      if first == 0
      then long_exponent params key signed signature
      else rsa_split params first key signed signature

  unfoldable pub verify_ecdsa_p256 : Bytes → Bytes → Bytes → Verdict
  verify_ecdsa_p256 key signed signature =
      if not (length key == 64)
      then failure "Invalid P-256 key length"
      else if not (length signature == 64)
      then failure "Invalid P-256 signature length"
      else verdict (crypto.ecdsa_p256 (4 ∷ key) signed signature)

  unfoldable pub verify_ecdsa_p384 : Bytes → Bytes → Bytes → Verdict
  verify_ecdsa_p384 key signed signature =
      if not (length key == 96)
      then failure "Invalid P-384 key length"
      else if not (length signature == 96)
      then failure "Invalid P-384 signature length"
      else verdict (crypto.ecdsa_p384 (4 ∷ key) signed signature)

  unfoldable pub verify_ed25519 : Bytes → Bytes → Bytes → Verdict
  verify_ed25519 key signed signature =
      if not (length key == 32)
      then failure "Invalid Ed25519 key length"
      else verdict (crypto.ed25519_verify key signed signature)

  unfoldable pub verify_signature : Algorithm → Bytes → Bytes → Bytes → Verdict
  verify_signature rsa_sha256 key signed signature = verify_rsa pkcs1_sha256 key signed signature
  verify_signature rsa_sha512 key signed signature = verify_rsa pkcs1_sha512 key signed signature
  verify_signature rsa_sha1 key signed signature = verify_rsa pkcs1_sha256 key signed signature
  verify_signature ecdsa_p256_sha256 key signed signature = verify_ecdsa_p256 key signed signature
  verify_signature ecdsa_p384_sha384 key signed signature = verify_ecdsa_p384 key signed signature
  verify_signature ed25519 key signed signature = verify_ed25519 key signed signature
  verify_signature (unknown n) key signed signature = failure "Unsupported DNSSEC algorithm"
