-- ===== src/Rdata/Parse.antt =====
-- `RData::parse` of src/dns/rdata.rs. Each arm of its `match` is a function of the buffer, of
-- `end`, the offset behind the record's data (here `until`), and of `rdlength` where it reads it.
use rust_dns_server.Base.{
  ℕ, zero, suc, ◌+◌, true, false, not, List, [], ◌∷◌, ◌++◌, length, ltb, leb, ◌==◌, Bytes,
}
use rust_dns_server.Text.{Text, TextLib}
use rust_dns_server.Text.{ascii}
use rust_dns_server.Error.{parse_error, buffer_too_short}
use rust_dns_server.Reader.{
  Parser, stuck, run, ◌>>=◌, ◌>>◌, pure, offset, set_offset, require, index, slice, u16_at, u32_at,
}
use rust_dns_server.Name
use rust_dns_server.Name.{DnsName}
use rust_dns_server.Codes.RecordType
use rust_dns_server.Codes.RecordType.{RecordType}
use rust_dns_server.Rdata.{
  RData, a, aaaa, cname, mx, txt, ns, soa, srv, ptr, ds, dnskey, rrsig, nsec, opt, unknown,
}

unfoldable pub parse_a : Bytes → ℕ → ℕ → Parser RData
parse_a bytes until rdlength = do
  require (rdlength == 4) (parse_error (ascii "Invalid A record length"))
  o ← offset
  b0 ← index bytes o
  b1 ← index bytes (o + 1)
  b2 ← index bytes (o + 2)
  b3 ← index bytes (o + 3)
  set_offset until
  pure (a (record { octet0 = b0; octet1 = b1; octet2 = b2; octet3 = b3 }))

unfoldable pub parse_aaaa : Bytes → ℕ → ℕ → Parser RData
parse_aaaa bytes until rdlength = do
  require (rdlength == 16) (parse_error (ascii "Invalid AAAA record length"))
  o ← offset
  octets ← slice bytes o (o + 16)
  set_offset until
  pure (aaaa octets)

unfoldable pub parse_ds : Bytes → ℕ → ℕ → Parser RData
parse_ds bytes until rdlength = do
  require (not (ltb rdlength 5)) (parse_error (ascii "Invalid DS record"))
  o ← offset
  key_tag ← u16_at bytes o
  algorithm ← index bytes (o + 2)
  digest_type ← index bytes (o + 3)
  digest ← slice bytes (o + 4) until
  set_offset until
  pure (ds key_tag algorithm digest_type digest)

unfoldable pub parse_dnskey : Bytes → ℕ → ℕ → Parser RData
parse_dnskey bytes until rdlength = do
  require (not (ltb rdlength 5)) (parse_error (ascii "Invalid DNSKEY record"))
  o ← offset
  flags ← u16_at bytes o
  protocol ← index bytes (o + 2)
  algorithm ← index bytes (o + 3)
  public_key ← slice bytes (o + 4) until
  set_offset until
  pure (dnskey flags protocol algorithm public_key)

-- The OPT arm and the catch-all.
unfoldable pub parse_raw : (Bytes → RData) → Bytes → ℕ → Parser RData
parse_raw make bytes until = do
  o ← offset
  raw ← slice bytes o until
  set_offset until
  pure (make raw)

-- The SOA arm behind its two names.
unfoldable pub soa_numbers : DnsName → DnsName → Bytes → ℕ → Parser RData
soa_numbers mname rname bytes until = do
  o ← offset
  require (leb (o + 20) until) (parse_error (ascii "Invalid SOA record"))
  serial ← u32_at bytes o
  refresh ← u32_at bytes (o + 4)
  retry ← u32_at bytes (o + 8)
  expire ← u32_at bytes (o + 12)
  minimum ← u32_at bytes (o + 16)
  set_offset until
  pure (soa mname rname serial refresh retry expire minimum)

module _ ⦃t : TextLib⦄ where
  -- The CNAME, NS and PTR arms.
  unfoldable pub parse_name : (DnsName → RData) → Bytes → ℕ → Parser RData
  parse_name make bytes until = do name ← Name.parse bytes; set_offset until; pure (make name)

  unfoldable pub parse_mx : Bytes → ℕ → ℕ → Parser RData
  parse_mx bytes until rdlength = do
    require (not (ltb rdlength 3)) (parse_error (ascii "Invalid MX record"))
    o ← offset
    preference ← u16_at bytes o
    set_offset (o + 2)
    exchange ← Name.parse bytes
    set_offset until
    pure (mx preference exchange)

  -- The loop of the TXT arm. Each round takes a byte at least, so as many rounds as bytes are enough.
  unfoldable pub txt_loop : (fuel : ℕ) → Bytes → ℕ → ℕ → List Text → Parser (List Text)
  txt_loop zero bytes until pos texts o = stuck
  txt_loop (suc fuel) bytes until pos texts o = elim (ltb pos until) [
    | false ↦ run o (pure texts)
    | true ↦ run o do
      txt_len ← index bytes pos
      require (leb (pos + 1 + txt_len) until) (parse_error (ascii "TXT record overflow"))
      raw ← slice bytes (pos + 1) (pos + 1 + txt_len)
      txt_loop fuel bytes until (pos + 1 + txt_len) (texts ++ (t.from_utf8_lossy raw ∷ []))
  ]

  unfoldable pub parse_txt : Bytes → ℕ → Parser RData
  parse_txt bytes until = do
    o ← offset
    texts ← txt_loop (suc (length bytes)) bytes until o []
    set_offset until
    pure (txt texts)

  unfoldable pub parse_soa : Bytes → ℕ → Parser RData
  parse_soa bytes until = do
    mname ← Name.parse bytes
    rname ← Name.parse bytes
    soa_numbers mname rname bytes until

  unfoldable pub parse_srv : Bytes → ℕ → ℕ → Parser RData
  parse_srv bytes until rdlength = do
    require (not (ltb rdlength 7)) (parse_error (ascii "Invalid SRV record"))
    o ← offset
    priority ← u16_at bytes o
    weight ← u16_at bytes (o + 2)
    port ← u16_at bytes (o + 4)
    set_offset (o + 6)
    target ← Name.parse bytes
    set_offset until
    pure (srv priority weight port target)

  unfoldable pub parse_rrsig : Bytes → ℕ → ℕ → Parser RData
  parse_rrsig bytes until rdlength = do
    require (not (ltb rdlength 19)) (parse_error (ascii "Invalid RRSIG record"))
    o ← offset
    type_covered ← u16_at bytes o
    algorithm ← index bytes (o + 2)
    labels ← index bytes (o + 3)
    original_ttl ← u32_at bytes (o + 4)
    expiration ← u32_at bytes (o + 8)
    inception ← u32_at bytes (o + 12)
    key_tag ← u16_at bytes (o + 16)
    set_offset (o + 18)
    signer_name ← Name.parse bytes
    o' ← offset
    signature ← slice bytes o' until
    set_offset until
    pure (
        rrsig (RecordType.from_u16 type_covered) algorithm labels original_ttl expiration inception
          key_tag signer_name signature)

  unfoldable pub parse_nsec : Bytes → ℕ → Parser RData
  parse_nsec bytes until = do
    next_domain ← Name.parse bytes
    o ← offset
    type_bitmaps ← slice bytes o until
    set_offset until
    pure (nsec next_domain type_bitmaps)

  unfoldable pub parse_body : RecordType → Bytes → ℕ → ℕ → Parser RData
  parse_body RecordType.a bytes until rdlength = parse_a bytes until rdlength
  parse_body RecordType.aaaa bytes until rdlength = parse_aaaa bytes until rdlength
  parse_body RecordType.cname bytes until rdlength = parse_name cname bytes until
  parse_body RecordType.ns bytes until rdlength = parse_name ns bytes until
  parse_body RecordType.ptr bytes until rdlength = parse_name ptr bytes until
  parse_body RecordType.mx bytes until rdlength = parse_mx bytes until rdlength
  parse_body RecordType.txt bytes until rdlength = parse_txt bytes until
  parse_body RecordType.soa bytes until rdlength = parse_soa bytes until
  parse_body RecordType.srv bytes until rdlength = parse_srv bytes until rdlength
  parse_body RecordType.ds bytes until rdlength = parse_ds bytes until rdlength
  parse_body RecordType.dnskey bytes until rdlength = parse_dnskey bytes until rdlength
  parse_body RecordType.rrsig bytes until rdlength = parse_rrsig bytes until rdlength
  parse_body RecordType.nsec bytes until rdlength = parse_nsec bytes until
  parse_body RecordType.opt bytes until rdlength = parse_raw opt bytes until
  parse_body (RecordType.unknown n) bytes until rdlength = parse_raw unknown bytes until

  unfoldable pub parse : RecordType → Bytes → ℕ → Parser RData
  parse record_type bytes rdlength = do
    o ← offset
    require (leb (o + rdlength) (length bytes)) buffer_too_short
    parse_body record_type bytes (o + rdlength) rdlength
