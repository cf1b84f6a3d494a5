-- ===== src/Header/Flags.antt =====
-- The two flag bytes: every field can be read back from its bits.
use rust_dns_server.Base.{
  ℕ, ◌*◌, ◌/◌, ◌<◌, ◌≡◌, refl, Bool, true, ◌&&◌, ◌==◌, bit_and, bit_or, passes, passes-lt, all_bool,
  all_bool_sound, bool_eq, bool_eq→eq, and_left, and_right, ==_iff,
}
use rust_dns_server.Header.{has_bit, set_bit}

abbrev pub byte1 : ℕ → Bool → Bool → Bool → Bool → ℕ
byte1 c qr aa tc rd =
    set_bit rd 0x01
      (set_bit tc 0x02 (set_bit aa 0x04 (bit_or (set_bit qr 0x80 0) (bit_and c 0x0F * 8))))

abbrev pub byte2 : ℕ → Bool → Bool → Bool → ℕ
byte2 c ra ad cd = bit_or (set_bit cd 0x10 (set_bit ad 0x20 (set_bit ra 0x80 0))) (bit_and c 0x0F)

abbrev check1 : ℕ → Bool → Bool → Bool → Bool → Bool
check1 c qr aa tc rd =
    let b = byte1 c qr aa tc rd in
    (bit_and (b / 8) 0x0F == c)
    && (bool_eq (has_bit b 0x80) qr
        && (bool_eq (has_bit b 0x04) aa
            && (bool_eq (has_bit b 0x02) tc && bool_eq (has_bit b 0x01) rd)))

abbrev check2 : ℕ → Bool → Bool → Bool → Bool
check2 c ra ad cd =
    let b = byte2 c ra ad cd in
    (bit_and b 0x0F == c)
    && (bool_eq (has_bit b 0x80) ra && (bool_eq (has_bit b 0x20) ad && bool_eq (has_bit b 0x10) cd))

table1 :
    passes
      (λ c. all_bool λ qr. all_bool λ aa. all_bool λ tc. all_bool λ rd. check1 c qr aa tc rd)
      16
    ≡ true
unfolding passes
table1 = refl

table2 : passes (λ c. all_bool λ ra. all_bool λ ad. all_bool λ cd. check2 c ra ad cd) 16 ≡ true
unfolding passes
table2 = refl

five_checks :
    (n c : ℕ) (b1 b2 b3 b4 d1 d2 d3 d4 : Bool)
    → ((n == c) && (bool_eq b1 d1 && (bool_eq b2 d2 && (bool_eq b3 d3 && bool_eq b4 d4)))) ≡ true
    → (n ≡ c) × (b1 ≡ d1) × (b2 ≡ d2) × (b3 ≡ d3) × (b4 ≡ d4)
five_checks n c b1 b2 b3 b4 d1 d2 d3 d4 h =
    let r1 = and_right (n == c) _ h in
    let r2 = and_right (bool_eq b1 d1) _ r1 in
    let r3 = and_right (bool_eq b2 d2) _ r2 in
    (
      (==_iff n c).0 (and_left (n == c) _ h),
      bool_eq→eq b1 d1 (and_left _ _ r1),
      bool_eq→eq b2 d2 (and_left _ _ r2),
      bool_eq→eq b3 d3 (and_left _ _ r3),
      bool_eq→eq b4 d4 (and_right _ _ r3),
    )

four_checks :
    (n c : ℕ) (b1 b2 b3 d1 d2 d3 : Bool)
    → ((n == c) && (bool_eq b1 d1 && (bool_eq b2 d2 && bool_eq b3 d3))) ≡ true
    → (n ≡ c) × (b1 ≡ d1) × (b2 ≡ d2) × (b3 ≡ d3)
four_checks n c b1 b2 b3 d1 d2 d3 h =
    let r1 = and_right (n == c) _ h in
    let r2 = and_right (bool_eq b1 d1) _ r1 in
    (
      (==_iff n c).0 (and_left (n == c) _ h),
      bool_eq→eq b1 d1 (and_left _ _ r1),
      bool_eq→eq b2 d2 (and_left _ _ r2),
      bool_eq→eq b3 d3 (and_right _ _ r2),
    )

pub byte1_fields :
    (c : ℕ) (qr aa tc rd : Bool)
    → c < 16
    → (bit_and (byte1 c qr aa tc rd / 8) 0x0F ≡ c)
      × (has_bit (byte1 c qr aa tc rd) 0x80 ≡ qr)
      × (has_bit (byte1 c qr aa tc rd) 0x04 ≡ aa)
      × (has_bit (byte1 c qr aa tc rd) 0x02 ≡ tc)
      × (has_bit (byte1 c qr aa tc rd) 0x01 ≡ rd)
byte1_fields c qr aa tc rd h = five_checks _ _ _ _ _ _ _ _ _ _ (
    all_bool_sound (λ b4. check1 c qr aa tc b4) rd
      (all_bool_sound (λ b3. all_bool λ b4. check1 c qr aa b3 b4) tc
        (all_bool_sound (λ b2. all_bool λ b3. all_bool λ b4. check1 c qr b2 b3 b4) aa
          (all_bool_sound (λ b1. all_bool λ b2. all_bool λ b3. all_bool λ b4. check1 c b1 b2 b3 b4)
            qr (passes-lt _ 16 table1 {i = c} h)))))

pub byte2_fields :
    (c : ℕ) (ra ad cd : Bool)
    → c < 16
    → (bit_and (byte2 c ra ad cd) 0x0F ≡ c)
      × (has_bit (byte2 c ra ad cd) 0x80 ≡ ra)
      × (has_bit (byte2 c ra ad cd) 0x20 ≡ ad)
      × (has_bit (byte2 c ra ad cd) 0x10 ≡ cd)
byte2_fields c ra ad cd h = four_checks _ _ _ _ _ _ _ _ (
    all_bool_sound (λ b3. check2 c ra ad b3) cd
      (all_bool_sound (λ b2. all_bool λ b3. check2 c ra b2 b3) ad
        (all_bool_sound (λ b1. all_bool λ b2. all_bool λ b3. check2 c b1 b2 b3) ra
          (passes-lt _ 16 table2 {i = c} h))))
