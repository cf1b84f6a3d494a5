-- ===== src/Rdata/Safety/Fixed.antt =====
-- The arms of `RData::parse` that read no name and no text, on any buffer.
use rust_dns_server.Base.{
  ℕ, ◌+◌, ◌≤◌, ◌≡◌, refl, true, not, inl, inr, arith, length, ltb, ◌==◌, Bytes, Bool-cases, ==_iff,
}
use rust_dns_server.Reader.{Returns, index-lt, u16_at-lt, slice-le}
use rust_dns_server.Codes.RecordType.{RecordType}
use rust_dns_server.Rdata.{RData}
use rust_dns_server.Rdata.Parse.{parse_a, parse_aaaa, parse_ds, parse_dnskey, parse_raw}

-- The types whose arm slices from behind a name, which may end past the record's data.
abbrev pub SlicesBehindName : RecordType → Type 0
SlicesBehindName RecordType.rrsig = Unit
SlicesBehindName RecordType.nsec = Unit
SlicesBehindName _ = ⊥

pub not-ltb : (a b : ℕ) → not (ltb a b) ≡ true → b ≤ a
not-ltb a b h = ground arith

module _ (bytes : Bytes) (o rdlength : ℕ) (room : o + rdlength ≤ length bytes) where
  pub parse_a-Returns :
      Returns (λ r o'. o' ≡ o + rdlength) (parse_a bytes (o + rdlength) rdlength o)
  unfolding parse_a
  parse_a-Returns = elim (Bool-cases (rdlength == 4)) [
    | inl e ↦
        let four = (==_iff rdlength 4).0 e in
        rw
          (
            e,
            (index-lt bytes o o (omega arith)).1,
            (index-lt bytes (o + 1) o (omega arith)).1,
            (index-lt bytes (o + 2) o (omega arith)).1,
            (index-lt bytes (o + 3) o (omega arith)).1,
          )
          refl
    | inr e ↦ rw e tt
  ]

  pub parse_aaaa-Returns :
      Returns (λ r o'. o' ≡ o + rdlength) (parse_aaaa bytes (o + rdlength) rdlength o)
  unfolding parse_aaaa
  parse_aaaa-Returns = elim (Bool-cases (rdlength == 16)) [
    | inl e ↦
        let sixteen = (==_iff rdlength 16).0 e in
        rw (e, slice-le bytes o (o + 16) o (omega arith) (omega arith)) refl
    | inr e ↦ rw e tt
  ]

  pub parse_ds-Returns :
      Returns (λ r o'. o' ≡ o + rdlength) (parse_ds bytes (o + rdlength) rdlength o)
  unfolding parse_ds
  parse_ds-Returns = elim (Bool-cases (not (ltb rdlength 5))) [
    | inl e ↦
        let five = not-ltb rdlength 5 e in
        rw
          (
            e,
            (u16_at-lt bytes o o (omega arith)).1,
            (index-lt bytes (o + 2) o (omega arith)).1,
            (index-lt bytes (o + 3) o (omega arith)).1,
            slice-le bytes (o + 4) (o + rdlength) o (omega arith) room,
          )
          refl
    | inr e ↦ rw e tt
  ]

  pub parse_dnskey-Returns :
      Returns (λ r o'. o' ≡ o + rdlength) (parse_dnskey bytes (o + rdlength) rdlength o)
  unfolding parse_dnskey
  parse_dnskey-Returns = elim (Bool-cases (not (ltb rdlength 5))) [
    | inl e ↦
        let five = not-ltb rdlength 5 e in
        rw
          (
            e,
            (u16_at-lt bytes o o (omega arith)).1,
            (index-lt bytes (o + 2) o (omega arith)).1,
            (index-lt bytes (o + 3) o (omega arith)).1,
            slice-le bytes (o + 4) (o + rdlength) o (omega arith) room,
          )
          refl
    | inr e ↦ rw e tt
  ]

  pub parse_raw-Returns :
      (make : Bytes → RData)
      → Returns (λ r o'. o' ≡ o + rdlength) (parse_raw make bytes (o + rdlength) o)
  unfolding parse_raw
  parse_raw-Returns make = rw (slice-le bytes o (o + rdlength) o (omega arith) room) refl
