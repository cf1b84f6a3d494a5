-- ===== src/Rdata/Txt.antt =====
-- The texts of a TXT record: `write_texts`, and back by the loop of the TXT arm.
use rust_dns_server.Base.{
  drop_all, take_all, ℕ, zero, suc, ◌+◌, ◌≤◌, ◌<◌, ◌≡◌, refl, ap, ◌∙◌, List, [], ◌∷◌, ◌++◌, arith,
  length, Bytes, lt→ltb, le→leb, le→ltb_false, At, At-split, All, append_assoc, append-nil,
  length-append,
}
use rust_dns_server.Text.{Text, TextLib}
use rust_dns_server.Reader.{ok, slice-At}
use rust_dns_server.Rdata.{write_chunks, write_text, write_texts}
use rust_dns_server.Rdata.Parse.{txt_loop}

chunks-nil : (fuel : ℕ) → write_chunks fuel [] ≡ []
unfolding write_chunks
chunks-nil zero = refl
chunks-nil (suc fuel) = refl

one_chunk :
    (fuel : ℕ) (b : ℕ) (text : Text)
    → length (b ∷ text) ≤ 255
    → write_chunks (suc fuel) (b ∷ text) ≡ length (b ∷ text) ∷ (b ∷ text)
unfolding write_chunks
one_chunk fuel b text h =
    rw (
      take_all 254 text (omega arith),
      drop_all 254 text (omega arith),
      chunks-nil fuel,
      append-nil,
    )

-- A text of at most 255 bytes is one chunk.
pub write_text_short : (text : Text) → length text ≤ 255 → write_text text ≡ length text ∷ text
unfolding write_text
write_text_short [] h = refl
write_text_short (b ∷ text) h = one_chunk (length text) b text h

module _ ⦃t : TextLib⦄ where
  -- A text that the TXT format keeps: one chunk of well-formed UTF-8.
  abbrev pub IsText : Text → Type 0
  IsText text = (length text ≤ 255) × (t.from_utf8_lossy text ≡ text)

  txt_step :
      (fuel : ℕ) (bytes : Bytes) (until pos : ℕ) (done : List Text) (o : ℕ) (text : Text)
      → IsText text
      → At bytes pos (length text ∷ text)
      → pos + 1 + length text ≤ until
      → txt_loop (suc fuel) bytes until pos done o
        ≡ txt_loop fuel bytes until (pos + 1 + length text) (done ++ (text ∷ [])) o
  unfolding txt_loop
  txt_step fuel bytes until pos done o text h w room = rw (
    lt→ltb pos until (omega arith),
    txt_loop,
    w.0,
    le→leb _ _ room,
    slice-At bytes (pos + 1) (pos + 1 + length text) o text w.1 refl,
    h.1,
  )

  pub txt_loop-write_texts :
      (fuel : ℕ) (bytes : Bytes) (until pos : ℕ) (done texts : List Text) (o : ℕ)
      → All IsText texts
      → At bytes pos (write_texts texts)
      → until ≡ pos + length (write_texts texts)
      → until < fuel + pos
      → txt_loop fuel bytes until pos done o ≡ ok (done ++ texts) o
  unfolding write_texts
  txt_loop-write_texts zero bytes until pos done texts o h w e f = absurd (omega arith)
  txt_loop-write_texts (suc fuel) bytes until pos done [] o h w e f =
      unfold txt_loop in rw (le→ltb_false pos until (omega arith), txt_loop, append-nil) refl
  txt_loop-write_texts (suc fuel) bytes until pos done (text ∷ texts) o h w e f =
      let shape = write_text_short text h.0.0 in
      let len : length (write_text text ++ write_texts texts)
          ≡ suc (length text) + length (write_texts texts) =
        length-append (write_text text) (write_texts texts) ∙ rw shape refl in
      let (here, rest) =
        At-split bytes pos (pos + 1 + length text) (length text ∷ text) (write_texts texts)
          (omega arith) (rw shape at w) in
      txt_step fuel bytes until pos done o text h.0 here (omega arith)
      ∙ txt_loop-write_texts fuel bytes until (pos + 1 + length text) (done ++ (text ∷ [])) texts o
          h.1 rest (omega arith) (omega arith)
      ∙ ap (λ (ts : List Text). ok ts o) (append_assoc done (text ∷ []) texts)
