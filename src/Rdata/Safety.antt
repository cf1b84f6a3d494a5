-- ===== src/Rdata/Safety.antt =====
-- `RData::parse` on any buffer: which arms always return, and what the two others need.
mod Fixed
pub use Fixed.*
use rust_dns_server.Base.{
  ℕ, zero, suc, ◌+◌, ◌≤◌, ◌<◌, ◌≡◌, refl, true, not, inl, inr, List, [], arith, length, ltb, leb,
  ◌==◌, Bytes, Bool-cases, ltb→lt, leb→le, ==_iff,
}
use rust_dns_server.Text.{Text, TextLib}
use rust_dns_server.Reader.{
  Parser, Returns, Returns-bind, Returns-mono, bind, index-lt, u16_at-lt, u32_at-lt, slice-le,
}
use rust_dns_server.Name
use rust_dns_server.Name.{DnsName}
use rust_dns_server.Name.Safety
use rust_dns_server.Codes.RecordType.{RecordType}
use rust_dns_server.Rdata.{RData}
use rust_dns_server.Rdata.Parse.{
  parse_a, parse_aaaa, parse_ds, parse_dnskey, parse_raw, parse_name, parse_mx, txt_loop, parse_txt,
  soa_numbers, parse_soa, parse_srv, parse_body, parse,
}

module _ ⦃t : TextLib⦄ (bytes : Bytes) where
  -- A name, and then whatever returns.
  after_name :
      (o until : ℕ) (f : DnsName → Parser RData)
      → ((n : DnsName) (o' : ℕ) → o' ≤ length bytes → Returns (λ r o''. o'' ≡ until) (f n o'))
      → Returns (λ r o''. o'' ≡ until) (bind (Name.parse bytes o) f)
  after_name o until f h =
      Returns-bind (λ n o'. (o < o') × (o' ≤ length bytes)) (λ r o''. o'' ≡ until)
        (Name.parse bytes o) f (Safety.parse-Returns_name bytes o) (λ n o' q. h n o' q.1)

  txt_loop-Returns :
      (fuel until pos : ℕ) (texts : List Text) (o : ℕ)
      → until ≤ length bytes
      → pos ≤ until
      → until < fuel + pos
      → Returns (λ r o'. o' ≡ o) (txt_loop fuel bytes until pos texts o)
  unfolding txt_loop
  txt_loop-Returns zero until pos texts o h p k = absurd (omega arith)
  txt_loop-Returns (suc fuel) until pos texts o h p k = elim (Bool-cases (ltb pos until)) [
    | inr e ↦ rw (e, txt_loop) refl
    | inl e ↦
        let (len, read) = index-lt bytes pos o (omega (arith, ltb→lt pos until e)) in
        elim (Bool-cases (leb (pos + 1 + len) until)) [
          | inl fits ↦
              let room = leb→le _ _ fits in
              rw
                (
                  e,
                  txt_loop,
                  read,
                  fits,
                  slice-le bytes (pos + 1) (pos + 1 + len) o (omega arith) (omega arith),
                )
                (txt_loop-Returns fuel until (pos + 1 + len) _ o h room (omega arith))
          | inr over ↦ rw (e, txt_loop, read, over) tt
        ]
  ]

  module _ (o rdlength : ℕ) (room : o + rdlength ≤ length bytes) where
    parse_name-Returns :
        (make : DnsName → RData)
        → Returns (λ r o'. o' ≡ o + rdlength) (parse_name make bytes (o + rdlength) o)
    unfolding parse_name
    parse_name-Returns make = after_name o (o + rdlength) _ (λ n o' q. refl)

    parse_mx-Returns :
        Returns (λ r o'. o' ≡ o + rdlength) (parse_mx bytes (o + rdlength) rdlength o)
    unfolding parse_mx
    parse_mx-Returns = elim (Bool-cases (not (ltb rdlength 3))) [
      | inl e ↦
          let three = not-ltb rdlength 3 e in
          rw (e, (u16_at-lt bytes o o (omega arith)).1)
            (after_name (o + 2) (o + rdlength) _ (λ n o' q. refl))
      | inr e ↦ rw e tt
    ]

    parse_srv-Returns :
        Returns (λ r o'. o' ≡ o + rdlength) (parse_srv bytes (o + rdlength) rdlength o)
    unfolding parse_srv
    parse_srv-Returns = elim (Bool-cases (not (ltb rdlength 7))) [
      | inl e ↦
          let seven = not-ltb rdlength 7 e in
          rw
            (
              e,
              (u16_at-lt bytes o o (omega arith)).1,
              (u16_at-lt bytes (o + 2) o (omega arith)).1,
              (u16_at-lt bytes (o + 4) o (omega arith)).1,
            )
            (after_name (o + 6) (o + rdlength) _ (λ n o' q. refl))
      | inr e ↦ rw e tt
    ]

    parse_txt-Returns : Returns (λ r o'. o' ≡ o + rdlength) (parse_txt bytes (o + rdlength) o)
    unfolding parse_txt
    parse_txt-Returns =
        Returns-bind (λ r o'. o' ≡ o) (λ r o'. o' ≡ o + rdlength)
          (txt_loop (suc (length bytes)) bytes (o + rdlength) o [] o) _
          (txt_loop-Returns (suc (length bytes)) (o + rdlength) o [] o room (omega arith)
            (omega arith))
          (λ texts o' q. refl)

    soa_numbers-Returns :
        (m r : DnsName) (p : ℕ)
        → Returns (λ d o'. o' ≡ o + rdlength) (soa_numbers m r bytes (o + rdlength) p)
    unfolding soa_numbers
    soa_numbers-Returns m r p = elim (Bool-cases (leb (p + 20) (o + rdlength))) [
      | inl e ↦
          let within = leb→le _ _ e in
          rw
            (
              e,
              (u32_at-lt bytes p p (omega arith)).1,
              (u32_at-lt bytes (p + 4) p (omega arith)).1,
              (u32_at-lt bytes (p + 8) p (omega arith)).1,
              (u32_at-lt bytes (p + 12) p (omega arith)).1,
              (u32_at-lt bytes (p + 16) p (omega arith)).1,
            )
            refl
      | inr e ↦ rw e tt
    ]

    parse_soa-Returns : Returns (λ r o'. o' ≡ o + rdlength) (parse_soa bytes (o + rdlength) o)
    unfolding parse_soa
    parse_soa-Returns =
        after_name o (o + rdlength) _
          λ m o' q. after_name o' (o + rdlength) _ λ r o'' q'. soa_numbers-Returns m r o''

    parse_body-Returns :
        (record_type : RecordType)
        → ¬ SlicesBehindName record_type
        → Returns
            (λ r o'. o' ≡ o + rdlength)
            (parse_body record_type bytes (o + rdlength) rdlength o)
    unfolding parse_body
    parse_body-Returns RecordType.a s = parse_a-Returns bytes o rdlength room
    parse_body-Returns RecordType.aaaa s = parse_aaaa-Returns bytes o rdlength room
    parse_body-Returns RecordType.cname s = parse_name-Returns _
    parse_body-Returns RecordType.ns s = parse_name-Returns _
    parse_body-Returns RecordType.ptr s = parse_name-Returns _
    parse_body-Returns RecordType.mx s = parse_mx-Returns
    parse_body-Returns RecordType.txt s = parse_txt-Returns
    parse_body-Returns RecordType.soa s = parse_soa-Returns
    parse_body-Returns RecordType.srv s = parse_srv-Returns
    parse_body-Returns RecordType.ds s = parse_ds-Returns bytes o rdlength room
    parse_body-Returns RecordType.dnskey s = parse_dnskey-Returns bytes o rdlength room
    parse_body-Returns RecordType.rrsig s = absurd (s tt)
    parse_body-Returns RecordType.nsec s = absurd (s tt)
    parse_body-Returns RecordType.opt s = parse_raw-Returns bytes o rdlength room _
    parse_body-Returns (RecordType.unknown n) s = parse_raw-Returns bytes o rdlength room _

  -- On every buffer `parse` returns for each type but RRSIG and NSEC: it ends, and reads no byte out
  -- of range. With data the offset has moved by exactly `rdlength`, inside the buffer.
  pub parse-Returns_rdata :
      (record_type : RecordType) (rdlength o : ℕ)
      → ¬ SlicesBehindName record_type
      → Returns
          (λ r o'. (o' ≡ o + rdlength) × (o' ≤ length bytes))
          (parse record_type bytes rdlength o)
  unfolding parse
  parse-Returns_rdata record_type rdlength o s =
      elim (Bool-cases (leb (o + rdlength) (length bytes))) [
        | inl e ↦
            let room = leb→le _ _ e in
            rw e (
              Returns-mono {Q = λ r o'. o' ≡ o + rdlength}
                {R = λ r o'. (o' ≡ o + rdlength) × (o' ≤ length bytes)} _
                (parse_body-Returns o rdlength room record_type s) (λ r o' q. (q, omega arith)))
        | inr e ↦ rw e tt
      ]
