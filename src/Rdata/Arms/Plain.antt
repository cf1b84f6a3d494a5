-- ===== src/Rdata/Arms/Plain.antt =====
-- Record data of names, addresses, texts and raw bytes, as `RData::parse` reads it back.
use rust_dns_server.Base.{
  ℕ, suc, ◌+◌, ◌≡◌, refl, List, [], ◌++◌, arith, length, Bytes, le→ltb_false, At, At-split,
  At-length, At-append, All, length-append, IsU16, to_be16,
}
use rust_dns_server.Text.{Text, TextLib}
use rust_dns_server.Reader.{ok, slice-At, u16_at-At}
use rust_dns_server.Name.{DnsName, to_wire}
use rust_dns_server.Name.Wire
use rust_dns_server.Rdata.{RData, Ipv4Addr, a, aaaa, mx, txt, nsec, octets, write_texts}
use rust_dns_server.Rdata.Txt.{IsText, txt_loop-write_texts}
use rust_dns_server.Rdata.Parse.{
  parse_a, parse_aaaa, parse_raw, parse_name, parse_mx, parse_txt, parse_nsec,
}

module _ ⦃t : TextLib⦄ where
  module _ (bytes : Bytes) (o : ℕ) where
    pub parse_a-Reads :
        (ip : Ipv4Addr) → At bytes o (octets ip) → parse_a bytes (o + 4) 4 o ≡ ok (a ip) (o + 4)
    unfolding parse_a
    parse_a-Reads ip w = ground arith

    pub parse_aaaa-Reads :
        (ip : Bytes)
        → length ip ≡ 16
        → At bytes o ip
        → parse_aaaa bytes (o + length ip) (length ip) o ≡ ok (aaaa ip) (o + length ip)
    unfolding parse_aaaa
    parse_aaaa-Reads ip e w = rw (e, slice-At bytes o (o + 16) o ip w (omega arith))

    pub parse_name-Reads :
        (make : DnsName → RData) (n : DnsName)
        → Wire.IsWire n
        → At bytes o (to_wire n)
        → parse_name make bytes (o + length (to_wire n)) o ≡ ok (make n) (o + length (to_wire n))
    unfolding parse_name
    parse_name-Reads make n h w = rw (Wire.parse-to_wire bytes o n h w)

    pub parse_mx-Reads :
        (preference : ℕ) (n : DnsName) (len : ℕ)
        → IsU16 preference
        → Wire.IsWire n
        → At bytes o (to_be16 preference ++ to_wire n)
        → len ≡ length (to_be16 preference ++ to_wire n)
        → parse_mx bytes (o + len) len o ≡ ok (mx preference n) (o + len)
    unfolding parse_mx
    parse_mx-Reads preference n len p h w e =
        let (w0, w2) = At-split bytes o (o + 2) (to_be16 preference) (to_wire n) refl w in
        rw (
          le→ltb_false len 3 (omega (arith, Wire.to_wire_pos n)),
          u16_at-At bytes o preference o p w0,
          Wire.parse-to_wire bytes (o + 2) n h w2,
        )

    pub parse_txt-Reads :
        (texts : List Text)
        → All IsText texts
        → At bytes o (write_texts texts)
        → parse_txt bytes (o + length (write_texts texts)) o
          ≡ ok (txt texts) (o + length (write_texts texts))
    unfolding parse_txt
    parse_txt-Reads texts h w = rw (
        txt_loop-write_texts (suc (length bytes)) bytes (o + length (write_texts texts)) o [] texts
          o h w refl (omega (arith, At-length bytes o (write_texts texts) w)))

    pub parse_raw-Reads :
        (make : Bytes → RData) (raw : Bytes)
        → At bytes o raw
        → parse_raw make bytes (o + length raw) o ≡ ok (make raw) (o + length raw)
    unfolding parse_raw
    parse_raw-Reads make raw w = rw (slice-At bytes o (o + length raw) o raw w refl)

    pub parse_nsec-Reads :
        (n : DnsName) (bitmaps : Bytes) (until : ℕ)
        → Wire.IsWire n
        → At bytes o (to_wire n ++ bitmaps)
        → until ≡ o + length (to_wire n ++ bitmaps)
        → parse_nsec bytes until o ≡ ok (nsec n bitmaps) until
    unfolding parse_nsec
    parse_nsec-Reads n bitmaps until h w e =
        let (w0, w1) = At-append bytes o (to_wire n) bitmaps w in
        let p = o + length (to_wire n) in
        rw (
          Wire.parse-to_wire bytes o n h w0,
          slice-At bytes p until p bitmaps w1
              (omega (arith, length-append {0} (to_wire n) bitmaps)),
        )
