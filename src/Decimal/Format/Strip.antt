-- ===== src/Decimal/Format/Strip.antt =====
-- What is left of a text once a character is dropped from its end.
use binance_funding_hedging.Prelude.{
  ℕ, zero, suc, ◌+◌, ◌*◌, ◌^◌, ◌≡◌, ◌≢◌, true, [], ◌∷◌, ◌++◌, ◌==◌, arith, refl, Bool-cases, inl,
  inr, ap, ◌∙◌, sym,
}
use binance_funding_hedging.Prelude.Texts.{Text}
use binance_funding_hedging.Decimal.Plain.{is_digit}
use binance_funding_hedging.Decimal.Format.{drop_if_last, rstrip}
use binance_funding_hedging.Decimal.Format.Digits.{AreDigits, value, size}
use native.Mathlib.Nat.{pow-suc}

abbrev pub zeros : ℕ → Text
zeros zero = []
zeros (suc k) = 48 ∷ zeros k

-- The last character is another, if there is one.
abbrev pub LastIsNot : ℕ → Text → Type 0
LastIsNot c [] = Unit
LastIsNot c (x ∷ []) = x ≢ c
LastIsNot c (x ∷ y ∷ text) = LastIsNot c (y ∷ text)

pub drop_if_last-LastIsNot :
    (c x : ℕ) (text : Text) → LastIsNot c text → LastIsNot c (drop_if_last c x text)
drop_if_last-LastIsNot c x [] h = elim (Bool-cases (x == c)) [
  | inl e ↦ rw e tt
  | inr e ↦ rw e (ground arith)
]
drop_if_last-LastIsNot c x (y ∷ text) h = h

pub rstrip-LastIsNot : (c : ℕ) (text : Text) → LastIsNot c (rstrip c text)
unfolding rstrip
rstrip-LastIsNot c [] = tt
rstrip-LastIsNot c (x ∷ text) = drop_if_last-LastIsNot c x (rstrip c text) (rstrip-LastIsNot c text)

pub drop_if_last-AreDigits :
    (c x : ℕ) (text : Text) → is_digit x ≡ true → AreDigits text → AreDigits (drop_if_last c x text)
drop_if_last-AreDigits c x [] d h = elim (Bool-cases (x == c)) [
  | inl e ↦ rw e tt
  | inr e ↦ rw e (d, tt)
]
drop_if_last-AreDigits c x (y ∷ text) d h = (d, h)

pub rstrip-AreDigits : (c : ℕ) (text : Text) → AreDigits text → AreDigits (rstrip c text)
unfolding rstrip
rstrip-AreDigits c [] h = tt
rstrip-AreDigits c (x ∷ text) h =
    drop_if_last-AreDigits c x (rstrip c text) h.0 (rstrip-AreDigits c text h.1)

pub drop_if_last-other : (c x : ℕ) (text : Text) → x ≢ c → drop_if_last c x text ≡ x ∷ text
drop_if_last-other c x [] ne = ground arith
drop_if_last-other c x (y ∷ text) ne = refl

-- What is stripped is a run of zeros.
pub drop_if_last-zeros :
    (x k : ℕ) (text : Text) → (j : ℕ) × (x ∷ (text ++ zeros k) ≡ drop_if_last 48 x text ++ zeros j)
drop_if_last-zeros x k [] = elim (Bool-cases (x == 48)) [
  | inl e ↦ let is_zero : x ≡ 48 = ground arith in (suc k, rw e (ap (λ c. c ∷ zeros k) is_zero))
  | inr e ↦ (k, rw e refl)
]
drop_if_last-zeros x k (y ∷ text) = (k, refl)

pub rstrip-zeros : (text : Text) → (k : ℕ) × (text ≡ rstrip 48 text ++ zeros k)
unfolding rstrip
rstrip-zeros [] = (0, refl)
rstrip-zeros (x ∷ text) =
    let (k, e) = rstrip-zeros text in
    let (j, f) = drop_if_last-zeros x k (rstrip 48 text) in (j, ap (λ t. x ∷ t) e ∙ f)

pub value-zeros : (n k : ℕ) → value n (zeros k) ≡ n * 10 ^ k
value-zeros n zero = omega arith
value-zeros n (suc k) =
    let rest = value-zeros (n * 10 + 0) k in
    let step : (n * 10 + 0) * 10 ^ k ≡ n * (10 ^ k * 10) = grind arith in
    rest ∙ step ∙ ap (λ t. n * t) (sym (pow-suc 10 k))

pub size-zeros : (k : ℕ) → size (zeros k) ≡ k
size-zeros zero = refl
size-zeros (suc k) = omega (arith, size-zeros k)

-- Nothing is stripped from digits by the strip of points.
pub rstrip-digits : (text : Text) → AreDigits text → rstrip 46 text ≡ text
unfolding rstrip
rstrip-digits [] h = refl
rstrip-digits (x ∷ text) h =
    ap (drop_if_last 46 x) (rstrip-digits text h.1) ∙ drop_if_last-other 46 x text (ground arith)

-- A strip that leaves something of the end leaves all of what stands before.
pub rstrip-append : (c y : ℕ) (s t r : Text) → rstrip c t ≡ y ∷ r → rstrip c (s ++ t) ≡ s ++ (y ∷ r)
unfolding rstrip
rstrip-append c y [] t r h = h
rstrip-append c y (x ∷ []) t r h = ap (drop_if_last c x) h
rstrip-append c y (x ∷ z ∷ s) t r h = ap (drop_if_last c x) (rstrip-append c y (z ∷ s) t r h)

pub rstrip-absorbs : (c : ℕ) (s t : Text) → rstrip c t ≡ [] → rstrip c (s ++ t) ≡ rstrip c s
unfolding rstrip
rstrip-absorbs c [] t h = h
rstrip-absorbs c (x ∷ s) t h = ap (drop_if_last c x) (rstrip-absorbs c s t h)

-- The digits before the point, and those behind it where some are left.
abbrev pub joined : Text → Text → Text
joined whole [] = whole
joined whole (y ∷ fraction) = whole ++ 46 ∷ y ∷ fraction

pub strip_point :
    (whole fraction : Text)
    → AreDigits whole
    → AreDigits fraction
    → rstrip 46 (whole ++ 46 ∷ fraction) ≡ joined whole fraction
unfolding rstrip
strip_point whole [] h k = rstrip-absorbs 46 whole (46 ∷ []) refl ∙ rstrip-digits whole h
strip_point whole (y ∷ fraction) h k =
    rstrip-append 46 46 whole (46 ∷ y ∷ fraction) (y ∷ fraction)
      (ap (drop_if_last 46 46) (rstrip-digits (y ∷ fraction) k))

pub strip_both :
    (whole fraction : Text)
    → AreDigits whole
    → AreDigits fraction
    → rstrip 46 (rstrip 48 (whole ++ 46 ∷ fraction)) ≡ joined whole (rstrip 48 fraction)
unfolding rstrip
strip_both whole fraction h k =
    ap (rstrip 46) (
      rstrip-append 48 46 whole (46 ∷ fraction) (rstrip 48 fraction)
        (drop_if_last-other 48 46 (rstrip 48 fraction) (omega arith)))
    ∙ strip_point whole (rstrip 48 fraction) h (rstrip-AreDigits 48 fraction k)
