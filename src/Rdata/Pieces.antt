-- ===== src/Rdata/Pieces.antt =====
-- The texts of a TXT record that are longer than a length byte can say: `RData::serialize` splits
-- them, and `RData::parse` does not join them again.
use rust_dns_server.Base.{
  ℕ, zero, suc, ◌+◌, ◌≤◌, ◌≡◌, refl, sym, ◌∙◌, List, [], ◌∷◌, ◌++◌, arith, length, take, drop,
  Bytes, At, All, All-append, All-pair, append_assoc, length-drop, take-drop_append, length-take-le,
}
use rust_dns_server.Text.{Text, TextLib}
use rust_dns_server.Reader.{ok}
use rust_dns_server.Codes.RecordType
use rust_dns_server.Rdata.{txt, serialize, write_chunks, write_text, write_texts}
use rust_dns_server.Rdata.Parse.{parse}
use rust_dns_server.Rdata.Txt.{write_text_short, IsText}
use rust_dns_server.Rdata.Wire.{parse-serialize_rdata}

-- `chunks(255)`: pieces of 255 bytes, and what is left. `fuel` is enough when it is the length.
unfoldable pub chunks : (fuel : ℕ) → Text → List Text
chunks zero text = []
chunks (suc fuel) [] = []
chunks (suc fuel) (b ∷ text) = take 255 (b ∷ text) ∷ chunks fuel (drop 255 (b ∷ text))

-- An empty text is one empty piece.
unfoldable pub pieces_of : Text → List Text
pieces_of [] = [] ∷ []
pieces_of (b ∷ text) = chunks (length (b ∷ text)) (b ∷ text)

unfoldable pub pieces : List Text → List Text
pieces [] = []
pieces (text ∷ texts) = pieces_of text ++ pieces texts

unfoldable pub join : List Text → Text
join [] = []
join (text ∷ texts) = text ++ join texts

join-append : (xs ys : List Text) → join (xs ++ ys) ≡ join xs ++ join ys
unfolding join
join-append [] ys = refl
join-append (x ∷ xs) ys = rw (join-append xs ys) (sym (append_assoc x (join xs) (join ys)))

write_texts-append : (xs ys : List Text) → write_texts (xs ++ ys) ≡ write_texts xs ++ write_texts ys
unfolding write_texts
write_texts-append [] ys = refl
write_texts-append (x ∷ xs) ys =
    rw (write_texts-append xs ys)
      (sym (append_assoc (write_text x) (write_texts xs) (write_texts ys)))

write_texts-chunks :
    (fuel : ℕ) (text : Text) → write_texts (chunks fuel text) ≡ write_chunks fuel text
unfolding write_texts write_chunks chunks
write_texts-chunks zero [] = refl
write_texts-chunks zero (b ∷ text) = refl
write_texts-chunks (suc fuel) [] = refl
write_texts-chunks (suc fuel) (b ∷ text) =
    rw
      (
        write_text_short (take 255 (b ∷ text)) (length-take-le 255 (b ∷ text)),
        write_texts-chunks fuel (drop 255 (b ∷ text)),
      )
      refl

join-chunks : (fuel : ℕ) (text : Text) → length text ≤ fuel → join (chunks fuel text) ≡ text
unfolding join chunks
join-chunks zero [] h = refl
join-chunks zero (b ∷ text) h = absurd (omega arith)
join-chunks (suc fuel) [] h = refl
join-chunks (suc fuel) (b ∷ text) h =
    let small : length (drop 254 text) ≤ fuel = omega (arith, length-drop 254 text) in
    rw (join-chunks fuel (drop 254 text) small) (take-drop_append 255 (b ∷ text))

write_texts-pieces_of : (text : Text) → write_texts (pieces_of text) ≡ write_text text
unfolding write_texts write_text pieces_of
write_texts-pieces_of [] = refl
write_texts-pieces_of (b ∷ text) = write_texts-chunks (length (b ∷ text)) (b ∷ text)

join-pieces_of : (text : Text) → join (pieces_of text) ≡ text
unfolding join pieces_of
join-pieces_of [] = refl
join-pieces_of (b ∷ text) = join-chunks (length (b ∷ text)) (b ∷ text) (omega arith)

write_texts-pieces : (texts : List Text) → write_texts (pieces texts) ≡ write_texts texts
unfolding write_texts pieces
write_texts-pieces [] = refl
write_texts-pieces (text ∷ texts) =
    write_texts-append (pieces_of text) (pieces texts)
    ∙ rw (write_texts-pieces_of text, write_texts-pieces texts) refl

join-pieces : (texts : List Text) → join (pieces texts) ≡ join texts
unfolding join pieces
join-pieces [] = refl
join-pieces (text ∷ texts) =
    join-append (pieces_of text) (pieces texts) ∙ rw (join-pieces_of text, join-pieces texts) refl

abbrev pub IsShort : Text → Type 0
IsShort text = length text ≤ 255

chunks-IsShort : (fuel : ℕ) (text : Text) → All IsShort (chunks fuel text)
unfolding chunks
chunks-IsShort zero text = tt
chunks-IsShort (suc fuel) [] = tt
chunks-IsShort (suc fuel) (b ∷ text) =
    (length-take-le 255 (b ∷ text), chunks-IsShort fuel (drop 255 (b ∷ text)))

pieces_of-IsShort : (text : Text) → All IsShort (pieces_of text)
unfolding pieces_of
pieces_of-IsShort [] = (omega arith, tt)
pieces_of-IsShort (b ∷ text) = chunks-IsShort (length (b ∷ text)) (b ∷ text)

pieces-IsShort : (texts : List Text) → All IsShort (pieces texts)
unfolding pieces
pieces-IsShort [] = tt
pieces-IsShort (text ∷ texts) =
    All-append _ (pieces_of text) (pieces texts) (pieces_of-IsShort text) (pieces-IsShort texts)

module _ ⦃t : TextLib⦄ where
  abbrev pub IsUtf8 : Text → Type 0
  IsUtf8 text = t.from_utf8_lossy text ≡ text

  -- `parse` reads the data of a TXT record with texts of any length back as their pieces of at most
  -- 255 bytes, if each piece is well-formed UTF-8. The pieces hold the bytes of the texts in their
  -- order, and `serialize` writes them as it writes the texts.
  pub parse-serialize_texts :
      (bytes : Bytes) (o : ℕ) (texts : List Text)
      → All IsUtf8 (pieces texts)
      → At bytes o (serialize (txt texts))
      → (parse RecordType.txt bytes (length (serialize (txt texts))) o
          ≡ ok (txt (pieces texts)) (o + length (serialize (txt texts))))
        × (join (pieces texts) ≡ join texts)
        × All IsShort (pieces texts)
        × (serialize (txt (pieces texts)) ≡ serialize (txt texts))
  parse-serialize_texts bytes o texts clean w =
      let same : serialize (txt (pieces texts)) ≡ serialize (txt texts) =
        unfold serialize in write_texts-pieces texts in
      let fits : All IsText (pieces texts) =
        All-pair _ _ (pieces texts) (pieces-IsShort texts) clean in
      (
        rw same at
            (parse-serialize_rdata bytes o RecordType.txt (txt (pieces texts)) fits (rw same w)),
        join-pieces texts,
        pieces-IsShort texts,
        same,
      )
