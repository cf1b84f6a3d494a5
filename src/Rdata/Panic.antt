-- ===== src/Rdata/Panic.antt =====
-- The two arms of `RData::parse` that slice from behind a name: where they panic.
use rust_dns_server.Base.{
  ℕ, ◌+◌, ◌≤◌, ◌<◌, ◌≡◌, refl, inl, inr, arith, length, leb, Bytes, Bool-cases, leb→le, le→leb,
  lt→leb_false, le→ltb_false, ◌↔◌,
}
use rust_dns_server.Text.{TextLib}
use rust_dns_server.Reader.{
  ok, panic, bind, index-lt, u16_at-lt, u32_at-lt, slice, slice-le, set_offset, pure, ◌>>◌,
}
use rust_dns_server.Name
use rust_dns_server.Name.{DnsName}
use rust_dns_server.Codes.RecordType.{RecordType}
use rust_dns_server.Rdata.{RData, nsec, rrsig}
use rust_dns_server.Rdata.Parse.{parse_rrsig, parse_nsec, parse_body, parse}

module _ ⦃t : TextLib⦄ (bytes : Bytes) where
  -- The last steps of the RRSIG and NSEC arms: they slice from behind the name.
  slice_panics :
      (make : Bytes → RData) (until o' : ℕ)
      → until ≤ length bytes
      → (bind (slice bytes o' until o') (λ raw. set_offset until >> pure (make raw)) ≡ panic)
        ↔ (until < o')
  slice_panics make until o' room = (if_panics, λ past. rw (lt→leb_false o' until past) refl)
    where
      if_panics :
          bind (slice bytes o' until o') (λ raw. set_offset until >> pure (make raw)) ≡ panic
          → until < o'
      if_panics h = elim (Bool-cases (leb o' until)) [
        | inl within ↦ absurd (cc (rw (slice-le bytes o' until o' (leb→le _ _ within) room) at h))
        | inr past ↦ ground arith
      ]

  -- On an NSEC record whose data lies inside the buffer and begins with a readable name, `parse` panics
  -- exactly when that name ends behind the record's data.
  pub parse-panics_nsec :
      (rdlength o : ℕ) (n : DnsName) (o' : ℕ)
      → o + rdlength ≤ length bytes
      → Name.parse bytes o ≡ ok n o'
      → (parse RecordType.nsec bytes rdlength o ≡ panic) ↔ (o + rdlength < o')
  unfolding parse parse_body parse_nsec
  parse-panics_nsec rdlength o n o' room e =
      rw (le→leb _ _ room, e) (slice_panics (nsec n) (o + rdlength) o' room)

  -- On an RRSIG record of 19 bytes or more inside the buffer whose signer is a readable name, `parse`
  -- panics exactly when that name ends behind the record's data.
  pub parse-panics_rrsig :
      (rdlength o : ℕ) (n : DnsName) (o' : ℕ)
      → 19 ≤ rdlength
      → o + rdlength ≤ length bytes
      → Name.parse bytes (o + 18) ≡ ok n o'
      → (parse RecordType.rrsig bytes rdlength o ≡ panic) ↔ (o + rdlength < o')
  unfolding parse parse_body parse_rrsig
  parse-panics_rrsig rdlength o n o' long room e =
      rw
        (
          le→leb _ _ room,
          le→ltb_false rdlength 19 long,
          (u16_at-lt bytes o o (omega arith)).1,
          (index-lt bytes (o + 2) o (omega arith)).1,
          (index-lt bytes (o + 3) o (omega arith)).1,
          (u32_at-lt bytes (o + 4) o (omega arith)).1,
          (u32_at-lt bytes (o + 8) o (omega arith)).1,
          (u32_at-lt bytes (o + 12) o (omega arith)).1,
          (u16_at-lt bytes (o + 16) o (omega arith)).1,
          e,
        )
        (slice_panics (λ signature. rrsig _ _ _ _ _ _ _ n signature) (o + rdlength) o' room)
