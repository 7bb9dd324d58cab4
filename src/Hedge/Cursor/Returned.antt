-- ===== src/Hedge/Cursor/Returned.antt =====
-- The cursors come back.
use binance_funding_hedging.Prelude.{
  ℕ, zero, suc, ◌+◌, ◌-◌, ◌*◌, ◌%◌, ◌<◌, ◌≡◌, true, false, some, [], ◌∷◌, ◌++◌, ◌==◌, ltb, leb,
  refl, arith, ap, ◌∙◌, sym,
}
use binance_funding_hedging.Prelude.Texts.{Text}
use binance_funding_hedging.Decimal.Format.{digits, rstrip}
use binance_funding_hedging.Decimal.Format.Digits.{
  AreDigits, value, size, size-append, digits-AreDigits, value-digits, size-digits,
}
use binance_funding_hedging.Decimal.Format.Strip.{rstrip-absorbs}
use binance_funding_hedging.Hedge.Cursor.{
  is_space, Base64, IsBase64, signs, Whole, int_digits, int_of, split_once, is_ascii, decoded,
  encode_cursor, two_parts, decode_cursor, encode_entries_cursor, three_parts,
  decode_entries_cursor,
}

abbrev pub natural : ℕ → Whole
natural n = record { negative = false; magnitude = n }

rstrip-signs : (k : ℕ) → rstrip 61 (signs k) ≡ []
unfolding rstrip
rstrip-signs zero = refl
rstrip-signs (suc k) = rw (rstrip-signs k) refl

-- A cursor is decoded to the text that it was made from.
decoded-stripped :
    (b : Base64) (raw : Text)
    → IsBase64 b
    → 0 < size raw
    → is_ascii raw ≡ true
    → decoded b (rstrip 61 (b.encode raw)) ≡ some raw
decoded-stripped b raw laws some_raw ascii =
    let (body, k, e, ends, long, four, few) = laws.shape raw some_raw in
    let stripped : rstrip 61 (b.encode raw) ≡ body =
      ap (rstrip 61) e ∙ rstrip-absorbs 61 body (signs k) (rstrip-signs k) ∙ ends in
    let missing : (4 - size body % 4) % 4 ≡ k = omega (arith, four, few) in
    let nonempty : (size body == 0) ≡ false = ground arith in
    rw (stripped, nonempty, missing, sym e, laws.decodes raw, ascii) refl

int_digits-value :
    (n : ℕ) (text : Text) → AreDigits text → int_digits true n text ≡ some (value n text)
unfolding int_digits
int_digits-value n [] h = refl
int_digits-value n (c ∷ text) (d, h) = rw d (int_digits-value (n * 10 + (c - 48)) text h)

int_of-value :
    (text : Text) → AreDigits text → 0 < size text → int_of text ≡ some (natural (value 0 text))
unfolding int_of int_digits
int_of-value [] h long = absurd (omega arith)
int_of-value (c ∷ text) (d, h) long =
    let solid : is_space c ≡ false = ground arith in
    let no_plus : (c == 43) ≡ false = ground arith in
    let no_minus : (c == 45) ≡ false = ground arith in
    rw (int_of, solid, no_plus, no_minus, d, int_digits-value (0 + (c - 48)) text h) refl

int_of-digits : (n : ℕ) → int_of (digits n) ≡ some (natural n)
int_of-digits n =
    int_of-value (digits n) (digits-AreDigits n) (size-digits n)
    ∙ ap (λ m. some (natural m)) (value-digits n)

split_once-append : (s t : Text) → AreDigits s → split_once (s ++ 58 ∷ t) ≡ some (s, t)
unfolding split_once
split_once-append [] t h = refl
split_once-append (c ∷ s) t (d, h) =
    let other : (c == 58) ≡ false = ground arith in rw (other, split_once-append s t h) refl

is_ascii-append : (s t : Text) → AreDigits s → is_ascii t ≡ true → is_ascii (s ++ 58 ∷ t) ≡ true
is_ascii-append [] t h e = e
is_ascii-append (c ∷ s) t (d, h) e =
    let low : ltb c 128 ≡ true = ground arith in rw (low, is_ascii-append s t h e) refl

is_ascii-digits : (s : Text) → AreDigits s → is_ascii s ≡ true
is_ascii-digits [] h = refl
is_ascii-digits (c ∷ s) (d, h) =
    let low : ltb c 128 ≡ true = ground arith in rw (low, is_ascii-digits s h) refl

two_parts-digits : (m n : ℕ) → two_parts (digits m ++ 58 ∷ digits n) ≡ some (natural m, natural n)
two_parts-digits m n =
    rw
      (
        two_parts,
        split_once-append (digits m) (digits n) (digits-AreDigits m),
        int_of-digits m,
        int_of-digits n,
      )
      refl

three_parts-digits :
    (m r n : ℕ)
    → r < 2
    → three_parts (digits m ++ 58 ∷ (digits r ++ 58 ∷ digits n))
      ≡ some (natural m, natural r, natural n)
three_parts-digits m r n low =
    let is_low : leb r 1 ≡ true = ground arith in
    rw
      (
        three_parts,
        split_once-append (digits m) (digits r ++ 58 ∷ digits n) (digits-AreDigits m),
        int_of-digits m,
        two_parts-digits r n,
        is_low,
      )
      refl

long-append : (s t : Text) → 0 < size (s ++ 58 ∷ t)
long-append s t = let parts = size-append s (58 ∷ t) in omega (arith, parts)

-- With a Base64 that decodes what it encodes, both cursors are decoded to the numbers that they were made
-- of, where the rank of an entry is 0 or 1.
pub decode-encode_cursor :
    (b : Base64) (ts_us rank row_id : ℕ)
    → IsBase64 b
    → rank < 2
    → (decode_cursor b (some (encode_cursor b ts_us row_id)) ≡ some (natural ts_us, natural row_id))
      × (decode_entries_cursor b (some (encode_entries_cursor b ts_us rank row_id))
          ≡ some (natural ts_us, natural rank, natural row_id))
unfolding decode_cursor encode_cursor decode_entries_cursor encode_entries_cursor
decode-encode_cursor b ts rank row laws low =
    let end_ascii = is_ascii-digits (digits row) (digits-AreDigits row) in
    let two = digits ts ++ 58 ∷ digits row in
    let rest = digits rank ++ 58 ∷ digits row in
    let three = digits ts ++ 58 ∷ rest in
    let two_ascii = is_ascii-append (digits ts) (digits row) (digits-AreDigits ts) end_ascii in
    let rest_ascii = is_ascii-append (digits rank) (digits row) (digits-AreDigits rank) end_ascii in
    let three_ascii = is_ascii-append (digits ts) rest (digits-AreDigits ts) rest_ascii in
    (
      rw
          (
            decode_cursor,
            encode_cursor,
            decoded-stripped b two laws (long-append (digits ts) (digits row)) two_ascii,
          )
          (two_parts-digits ts row),
      rw
          (
            decode_entries_cursor,
            encode_entries_cursor,
            decoded-stripped b three laws (long-append (digits ts) rest) three_ascii,
          )
          (three_parts-digits ts rank row low),
    )
