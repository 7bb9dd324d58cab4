-- ===== src/Tests/Cursors.antt =====
-- Runs of the cursors and of the validation of a threshold; the cursors with a code of four characters for each character in place of Base64.
use binance_funding_hedging.Prelude.{
  ℕ, ◌+◌, ◌-◌, ◌%◌, ◌<◌, ◌≡◌, ◌≢◌, some, [], ◌∷◌, ◌++◌, refl, arith, ap, ◌∙◌,
}
use binance_funding_hedging.Prelude.Texts.{Text}
use binance_funding_hedging.Decimal.Format.{rstrip, drop_if_last}
use binance_funding_hedging.Decimal.Format.Digits.{size}
use binance_funding_hedging.Decimal.Format.Strip.{drop_if_last-other}
use binance_funding_hedging.Hedge.Cursor.{
  Base64, IsBase64, encode_cursor, decode_cursor, encode_entries_cursor, decode_entries_cursor,
}
use binance_funding_hedging.Hedge.Threshold.{validate_slippage_threshold_pct}
use binance_funding_hedging.Hedge.Threshold.Normal.{
  IsNormal, validate_slippage_threshold_pct-IsNormal,
}
use binance_funding_hedging.Hedge.Cursor.Returned.{natural, decode-encode_cursor}

abbrev fourfold : Text → Text
fourfold [] = []
fourfold (c ∷ text) = (c + 100) ∷ (c + 100) ∷ (c + 100) ∷ (c + 100) ∷ fourfold text

abbrev single : Text → Text
single (c ∷ _ ∷ _ ∷ _ ∷ text) = (c - 100) ∷ single text
single _ = []

abbrev code : Base64
code = record { encode = fourfold; decode = λ text. some (single text) }

single-fourfold : (text : Text) → single (fourfold text) ≡ text
single-fourfold [] = refl
single-fourfold (c ∷ text) =
    let back : (c + 100) - 100 ≡ c = omega arith in rw (back, single-fourfold text) refl

size-fourfold : (text : Text) → size (fourfold text) % 4 ≡ 0
size-fourfold [] = refl
size-fourfold (c ∷ text) = let rest = size-fourfold text in omega (arith, rest)

not_sign : (c : ℕ) → c + 100 ≢ 61
not_sign c e = omega (arith, e)

kept :
    (c : ℕ) (text : Text) → rstrip 61 text ≡ text → rstrip 61 ((c + 100) ∷ text) ≡ (c + 100) ∷ text
unfolding rstrip
kept c text e = ap (drop_if_last 61 (c + 100)) e ∙ drop_if_last-other 61 (c + 100) text (not_sign c)

rstrip-fourfold : (text : Text) → rstrip 61 (fourfold text) ≡ fourfold text
unfolding rstrip
rstrip-fourfold [] = refl
rstrip-fourfold (c ∷ text) = kept c _ (kept c _ (kept c _ (kept c _ (rstrip-fourfold text))))

append_nothing : (text : Text) → text ≡ text ++ []
append_nothing [] = refl
append_nothing (c ∷ text) = ap (λ t. c ∷ t) (append_nothing text)

size-positive : (text : Text) → 0 < size text → 0 < size (fourfold text)
size-positive [] h = h
size-positive (c ∷ text) h = omega arith

code-IsBase64 : IsBase64 code
code-IsBase64 = record {
  shape = λ raw h. (
    fourfold raw,
    0,
    append_nothing (fourfold raw),
    rstrip-fourfold raw,
    size-positive raw h,
    (let whole = size-fourfold raw in omega (arith, whole)),
    omega arith,
  );
  decodes = λ raw. ap some (single-fourfold raw);
}

decode-encode_cursor_example :
    (decode_cursor code (some (encode_cursor code 1700 12)) ≡ some (natural 1700, natural 12))
    × (decode_entries_cursor code (some (encode_entries_cursor code 1700 1 12))
        ≡ some (natural 1700, natural 1, natural 12))
decode-encode_cursor_example = decode-encode_cursor code 1700 1 12 code-IsBase64 (omega arith)

-- "-007.5"
abbrev threshold : Text
threshold = 45 ∷ 48 ∷ 48 ∷ 55 ∷ 46 ∷ 53 ∷ []

-- "-7.50"
abbrev normal_threshold : Text
normal_threshold = 45 ∷ 55 ∷ 46 ∷ 53 ∷ 48 ∷ []

validate_slippage_threshold_pct-IsNormal_example : IsNormal normal_threshold
unfolding validate_slippage_threshold_pct
validate_slippage_threshold_pct-IsNormal_example =
    validate_slippage_threshold_pct-IsNormal threshold normal_threshold refl
