-- ===== src/Decimal/Format/Digits.antt =====
-- How the parser of decimals reads the digits that the formatter writes.
use binance_funding_hedging.Prelude.{
  ℕ, zero, suc, ◌+◌, ◌-◌, ◌*◌, ◌/◌, ◌%◌, ◌^◌, ◌<◌, ◌≡◌, Bool, true, [], ◌∷◌, ◌++◌, ◌==◌, arith,
  refl, All, Bool-cases, inl, inr, ap, ◌∙◌,
}
use binance_funding_hedging.Prelude.Texts.{Text}
use binance_funding_hedging.Decimal.Plain.{is_digit, fraction_part, whole_part}
use binance_funding_hedging.Decimal.Format.{padded, digits_fuel, digits}
use native.Mathlib.Nat.{pow-suc}

abbrev pub AreDigits : Text → Type 0
AreDigits text = All (λ c. is_digit c ≡ true) text

-- The number that the digits give behind a number read before.
abbrev pub value : ℕ → Text → ℕ
value n [] = n
value n (c ∷ text) = value (n * 10 + (c - 48)) text

abbrev pub size : Text → ℕ
size [] = 0
size (c ∷ text) = size text + 1

pub value-append : (n : ℕ) (s t : Text) → value n (s ++ t) ≡ value (value n s) t
value-append n [] t = refl
value-append n (c ∷ s) t = value-append (n * 10 + (c - 48)) s t

pub size-append : (s t : Text) → size (s ++ t) ≡ size s + size t
size-append [] t = omega arith
size-append (c ∷ s) t = omega (arith, size-append s t)

pub AreDigits-append : (s t : Text) → AreDigits s → AreDigits t → AreDigits (s ++ t)
AreDigits-append [] t h k = k
AreDigits-append (c ∷ s) t h k = (h.0, AreDigits-append s t h.1 k)

last_digit : (n : ℕ) → is_digit (48 + n % 10) ≡ true
last_digit n = ground arith

pub padded-AreDigits : (k n : ℕ) → AreDigits (padded k n)
unfolding padded
padded-AreDigits zero n = tt
padded-AreDigits (suc k) n =
    AreDigits-append (padded k (n / 10)) _ (padded-AreDigits k (n / 10)) (last_digit n, tt)

pub size-padded : (k n : ℕ) → size (padded k n) ≡ k
unfolding padded
size-padded zero n = refl
size-padded (suc k) n =
    omega (arith, size-append (padded k (n / 10)) ((48 + n % 10) ∷ []), size-padded k (n / 10))

ten_times : (m x : ℕ) → m * (x * 10) ≡ 10 * (m * x)
ten_times m x = grind arith

pub value-padded : (k m n : ℕ) → n < 10 ^ k → value m (padded k n) ≡ m * 10 ^ k + n
unfolding padded
value-padded zero m n h = omega arith
value-padded (suc k) m n h =
    let rest = value-padded k m (n / 10) (omega (arith, pow-suc 10 k)) in
    let last = value-append m (padded k (n / 10)) ((48 + n % 10) ∷ []) in
    let power : m * 10 ^ suc k ≡ 10 * (m * 10 ^ k) =
      ap (λ t. m * t) (pow-suc 10 k) ∙ ten_times m (10 ^ k) in
    omega (arith, rest, last, power)

digits_fuel-AreDigits : (fuel n : ℕ) → AreDigits (digits_fuel fuel n)
unfolding digits_fuel
digits_fuel-AreDigits zero n = tt
digits_fuel-AreDigits (suc fuel) n = elim (Bool-cases (n / 10 == 0)) [
  | inl e ↦ rw e (last_digit n, tt)
  | inr e ↦ rw e (
      AreDigits-append (digits_fuel fuel (n / 10)) _ (digits_fuel-AreDigits fuel (n / 10))
        (last_digit n, tt))
]

value-digits_fuel : (fuel n : ℕ) → n < fuel → value 0 (digits_fuel fuel n) ≡ n
unfolding digits_fuel
value-digits_fuel zero n h = elim h [ ]
value-digits_fuel (suc fuel) n h = elim (Bool-cases (n / 10 == 0)) [
  | inl e ↦ rw e (ground arith)
  | inr e ↦
      let rest = value-digits_fuel fuel (n / 10) (ground arith) in
      let last = value-append 0 (digits_fuel fuel (n / 10)) ((48 + n % 10) ∷ []) in
      rw e (omega (arith, rest, last))
]

pub digits-AreDigits : (n : ℕ) → AreDigits (digits n)
unfolding digits
digits-AreDigits n = digits_fuel-AreDigits (suc n) n

pub value-digits : (n : ℕ) → value 0 (digits n) ≡ n
unfolding digits
value-digits n = value-digits_fuel (suc n) n (omega arith)

pub size-digits : (n : ℕ) → 0 < size (digits n)
unfolding digits digits_fuel
size-digits n = elim (Bool-cases (n / 10 == 0)) [
  | inl e ↦ rw e (omega arith)
  | inr e ↦ rw e (omega (arith, size-append (digits_fuel n (n / 10)) ((48 + n % 10) ∷ [])))
]

-- The parser before the point reads a run of digits, and goes on behind it.
pub whole_part-append :
    (n : ℕ) (seen : Bool) (s t : Text)
    → AreDigits s
    → 0 < size s
    → whole_part n seen (s ++ t) ≡ whole_part (value n s) true t
unfolding whole_part
whole_part-append n seen [] t h pos = absurd (omega arith)
whole_part-append n seen (c ∷ []) t h pos = rw (whole_part, h.0) refl
whole_part-append n seen (c ∷ d ∷ s) t h pos =
    rw (whole_part, h.0) (whole_part-append (n * 10 + (c - 48)) true (d ∷ s) t h.1 (omega arith))

-- And the parser behind the point, to the end.
pub fraction_part-digits :
    (n places : ℕ) (s : Text)
    → AreDigits s
    → fraction_part n places s ≡ fraction_part (value n s) (places + size s) []
unfolding fraction_part
fraction_part-digits n places [] h = let same : places + 0 ≡ places = omega arith in rw same refl
fraction_part-digits n places (c ∷ s) h =
    let rest = fraction_part-digits (n * 10 + (c - 48)) (places + 1) s h.1 in
    let shift : places + 1 + size s ≡ places + (size s + 1) = omega arith in
    rw (fraction_part, h.0)
      (rest ∙ ap (λ p. fraction_part (value (n * 10 + (c - 48)) s) p []) shift)
