-- ===== src/Hedge/Cursor.antt =====
-- The cursors of the pages of logs and of entries: encode_cursor, decode_cursor and the same for entries,
-- of backend/hedge_open_tasks/domain.py. Base64 is a parameter: its texts and bytes are numbers. The
-- limit of int on texts of more than 4300 digits is left out.
pub mod Returned
use binance_funding_hedging.Prelude.{
  ℕ, zero, suc, ◌+◌, ◌-◌, ◌*◌, ◌%◌, ◌<◌, ◌≡◌, Bool, true, false, not, Option, none, some, List, [],
  ◌∷◌, ◌++◌, if◌then◌else◌, ◌==◌, ◌&&◌, ◌||◌, ltb, leb,
}
use binance_funding_hedging.Prelude.Texts.{Text}
use binance_funding_hedging.Decimal.Plain.{is_digit}
use binance_funding_hedging.Decimal.Format.{digits, rstrip}
use binance_funding_hedging.Decimal.Format.Digits.{size}

-- urlsafe_b64encode, and urlsafe_b64decode, which may raise.
pub record Base64 : Type 0 where
  pub encode : Text → Text
  pub decode : Text → Option Text

abbrev pub signs : ℕ → Text
signs zero = []
signs (suc k) = 61 ∷ signs k

-- What the cursors rely on: a code of one text or more has a length that four divides, by fewer than four
-- signs of equality at its end, and it is decoded to the text.
pub record IsBase64 (b : Base64) : Type 0 where
  pub shape :
      (raw : Text)
      → 0 < size raw
      → (body : Text) × (k : ℕ) × (b.encode raw ≡ body ++ signs k)
        × (rstrip 61 body ≡ body)
        × (0 < size body)
        × ((size body + k) % 4 ≡ 0)
        × (k < 4)
  pub decodes : (raw : Text) → b.decode (b.encode raw) ≡ some raw

-- An integer; 0 is not negative.
pub record Whole : Type 0 where
  pub negative : Bool
  pub magnitude : ℕ

abbrev pub positive : Option ℕ → Option Whole
positive none = none
positive (some n) = some (record { negative = false; magnitude = n })

abbrev pub negated : Option ℕ → Option Whole
negated none = none
negated (some n) = some (record { negative = ltb 0 n; magnitude = n })

-- The white space of an ASCII text.
abbrev pub is_space : ℕ → Bool
is_space c = leb 9 c && leb c 13 || leb 28 c && leb c 32

abbrev pub are_spaces : Text → Bool
are_spaces [] = true
are_spaces (c ∷ text) = is_space c && are_spaces text

-- The digits of an integer, with single underscores between them; the flag is whether the last character
-- was a digit.
unfoldable pub int_digits : Bool → ℕ → Text → Option ℕ
int_digits seen n [] = if seen then some n else none
int_digits seen n (c ∷ text) =
    let further = int_digits true (n * 10 + (c - 48)) text in
    let after = int_digits false n text in
    if is_digit c
    then further
    else if c == 95 && seen
    then after
    else if seen && are_spaces (c ∷ text)
    then some n
    else none

-- int(text)
unfoldable pub int_of : Text → Option Whole
unfolding int_digits
int_of [] = none
int_of (c ∷ text) =
    let later = int_of text in
    if is_space c
    then later
    else if c == 43
    then positive (int_digits false 0 text)
    else if c == 45
    then negated (int_digits false 0 text)
    else positive (int_digits false 0 (c ∷ text))

-- text.split(":", 1) where there is a colon.
unfoldable pub split_once : Text → Option (Text × Text)
split_once [] = none
split_once (c ∷ text) =
    let later = split_once text in
    if c == 58 then some ([], text) else elim later [ none ↦ none | some (s, t) ↦ some (c ∷ s, t) ]

abbrev pub is_ascii : Text → Bool
is_ascii [] = true
is_ascii (c ∷ text) = ltb c 128 && is_ascii text

abbrev pub ascii : Option Text → Option Text
ascii none = none
ascii (some raw) = if is_ascii raw then some raw else none

-- The text of a cursor, without the signs at its end, decoded; none for an empty text.
abbrev pub decoded : Base64 → Text → Option Text
decoded b value =
    if size value == 0 then none else ascii (b.decode (value ++ signs ((4 - size value % 4) % 4)))

unfoldable pub encode_cursor : Base64 → ℕ → ℕ → Text
unfolding rstrip digits
encode_cursor b ts_us row_id = rstrip 61 (b.encode (digits ts_us ++ 58 ∷ digits row_id))

abbrev pub two_parts : Text → Option (Whole × Whole)
two_parts text = elim (split_once text) [
  | none ↦ none
  | some (s, t) ↦ elim (int_of s) [
    | none ↦ none
    | some a ↦ elim (int_of t) [ none ↦ none | some b ↦ some (a, b) ]
  ]
]

-- A value that is not a text is none.
unfoldable pub decode_cursor : Base64 → Option Text → Option (Whole × Whole)
unfolding int_of split_once
decode_cursor b none = none
decode_cursor b (some value) = elim (decoded b value) [ none ↦ none | some text ↦ two_parts text ]

unfoldable pub encode_entries_cursor : Base64 → ℕ → ℕ → ℕ → Text
unfolding rstrip digits
encode_entries_cursor b ts_us rank row_id =
    rstrip 61 (b.encode (digits ts_us ++ 58 ∷ (digits rank ++ 58 ∷ digits row_id)))

abbrev pub is_rank : Whole → Bool
is_rank rank = not rank.negative && leb rank.magnitude 1

abbrev pub three_parts : Text → Option (Whole × Whole × Whole)
three_parts text = elim (split_once text) [
  | none ↦ none
  | some (s, t) ↦ elim (int_of s) [
    | none ↦ none
    | some ts ↦ elim (two_parts t) [
      | none ↦ none
      | some (rank, row_id) ↦ if is_rank rank then some (ts, rank, row_id) else none
    ]
  ]
]

unfoldable pub decode_entries_cursor : Base64 → Option Text → Option (Whole × Whole × Whole)
unfolding int_of split_once
decode_entries_cursor b none = none
decode_entries_cursor b (some value) = elim (decoded b value) [
  | none ↦ none
  | some text ↦ three_parts text
]
