-- ===== src/Dnssec/Delegation.antt =====
-- `DnssecValidator::verify_ds`: which keys a DS record vouches for.
use rust_dns_server.Base.{
  ℕ, ◌≡◌, refl, ap, true, Option, none, some, [], ◌∷◌, ◌++◌, ◌==◌, Bytes, Bool-cases, ==_iff,
  and_left, and_right, inl, inr,
}
use rust_dns_server.Name.{to_wire, text_eq}
use rust_dns_server.Rdata
use rust_dns_server.Rdata.{RData, ds, dnskey}
use rust_dns_server.Record.{DnsRecord}
use rust_dns_server.Dnssec.Ring.{Crypto, digest_from_u8}
use rust_dns_server.Dnssec.{compute_key_tag, digest_of, same_digest, ds_matches, verify_ds}

text_eq→eq : (s t : Bytes) → text_eq s t ≡ true → s ≡ t
unfolding text_eq
text_eq→eq [] [] h = refl
text_eq→eq [] (b ∷ t) h = absurd (cc)
text_eq→eq (x ∷ s) [] h = absurd (cc)
text_eq→eq (x ∷ s) (y ∷ t) h = cc (
  (==_iff x y).0 (and_left (x == y) (text_eq s t) h),
  text_eq→eq s t (and_right (x == y) (text_eq s t) h),
)

module _ (crypto : Crypto) where
  -- The data of a DS record and of a DNSKEY record with the same algorithm, the key's tag, and the
  -- digest of the key's name and data.
  pub record Vouches (d k : RData) (key : DnsRecord) : Type 0 where
    pub key_tag : ℕ
    pub algorithm : ℕ
    pub digest_type : ℕ
    pub digest : Bytes
    pub flags : ℕ
    pub protocol : ℕ
    pub public_key : Bytes
    pub is_ds : d ≡ ds key_tag algorithm digest_type digest
    pub is_key : k ≡ dnskey flags protocol algorithm public_key
    pub same_tag : compute_key_tag key ≡ key_tag
    pub same_digests :
        digest_of crypto
          (digest_from_u8 digest_type)
          (to_wire key.name ++ Rdata.serialize key.rdata)
        ≡ some digest

  same_digest→eq :
      (o : Option Bytes) (digest : Bytes) → same_digest crypto o digest ≡ true → o ≡ some digest
  unfolding same_digest
  same_digest→eq none digest h = absurd (cc)
  same_digest→eq (some computed) digest h = ap some (text_eq→eq computed digest h)

  ds_matches-Vouches :
      (d k : RData) (key : DnsRecord) → ds_matches crypto d k key ≡ true → Vouches d k key
  unfolding ds_matches
  ds_matches-Vouches (ds tag alg type digest) (dnskey flags protocol key_alg public_key) key h =
      elim (Bool-cases (alg == key_alg)) [
        | inr other ↦ absurd (cc (rw other at h))
        | inl same ↦ elim (Bool-cases (tag == compute_key_tag key)) [
          | inr wrong ↦ absurd (cc (rw (same, wrong) at h))
          | inl right ↦ record {
            key_tag = tag;
            algorithm = alg;
            digest_type = type;
            digest = digest;
            flags = flags;
            protocol = protocol;
            public_key = public_key;
            is_ds = refl;
            is_key = cc ((==_iff alg key_alg).0 same);
            same_tag = cc ((==_iff tag (compute_key_tag key)).0 right);
            same_digests = same_digest→eq _ digest (rw (same, right) at h);
          }
        ]
      ]
  ds_matches-Vouches _ _ key h = absurd (cc)

  -- A DS record is said to match a key only if it has the key's algorithm, the key's tag, and the digest
  -- of the key's name and data under a known digest type.
  pub verify_ds-Vouches :
      (d key : DnsRecord) → verify_ds crypto d key ≡ true → Vouches d.rdata key.rdata key
  unfolding verify_ds
  verify_ds-Vouches d key h = ds_matches-Vouches d.rdata key.rdata key h
