-- ===== src/Hedge/Threshold/Groups.antt =====
-- The digits of a threshold and its two groups.
use binance_funding_hedging.Prelude.{
  ℕ, ◌<◌, ◌≡◌, true, some, [], ◌∷◌, ◌++◌, ◌==◌, ◌&&◌, refl, arith, Bool-cases, inl, inr,
}
use mathlib.Core.Path.{subst}
use binance_funding_hedging.Prelude.Texts.{Text}
use binance_funding_hedging.Decimal.Plain.{is_digit}
use binance_funding_hedging.Decimal.Format.Digits.{AreDigits, size}
use binance_funding_hedging.Hedge.Threshold.{
  take_digits, is_fraction, with_fraction, without_zeros, ljust_two,
}

pub take_digits-AreDigits : (text : Text) → AreDigits (take_digits text).0
unfolding take_digits
take_digits-AreDigits [] = tt
take_digits-AreDigits (c ∷ text) = elim (Bool-cases (is_digit c)) [
  | inl e ↦ rw e (e, take_digits-AreDigits text)
  | inr e ↦ rw e tt
]

pub take_digits-append : (s t : Text) → AreDigits s → take_digits (s ++ 46 ∷ t) ≡ (s, 46 ∷ t)
unfolding take_digits
take_digits-append [] t h = refl
take_digits-append (c ∷ s) t (d, h) = rw (d, take_digits-append s t h) refl

pub without_zeros-AreDigits : (text : Text) → AreDigits text → AreDigits (without_zeros text)
unfolding without_zeros
without_zeros-AreDigits [] h = (refl, tt)
without_zeros-AreDigits (c ∷ text) (d, h) = elim (Bool-cases (c == 48)) [
  | inl e ↦ rw e (without_zeros-AreDigits text h)
  | inr e ↦ rw e (d, h)
]

pub without_zeros-twice : (text : Text) → without_zeros (without_zeros text) ≡ without_zeros text
unfolding without_zeros
without_zeros-twice [] = refl
without_zeros-twice (c ∷ text) = elim (Bool-cases (c == 48)) [
  | inl e ↦ rw e (without_zeros-twice text)
  | inr e ↦ rw e (rw e refl)
]

pub size-without_zeros : (text : Text) → 0 < size (without_zeros text)
unfolding without_zeros
size-without_zeros [] = omega arith
size-without_zeros (c ∷ text) = elim (Bool-cases (c == 48)) [
  | inl e ↦ rw e (size-without_zeros text)
  | inr e ↦ rw e (omega arith)
]

-- Two digits behind the point.
pub record IsTwo (fraction : Text) : Type 0 where
  pub x : ℕ
  pub y : ℕ
  pub same : fraction ≡ x ∷ y ∷ []
  pub digit_x : is_digit x ≡ true
  pub digit_y : is_digit y ≡ true

pub ljust_two-IsTwo : (fraction : Text) → is_fraction fraction ≡ true → IsTwo (ljust_two fraction)
ljust_two-IsTwo [] h = absurd (cc h)
ljust_two-IsTwo (x ∷ []) h = record { x = x; y = 48; same = refl; digit_x = h; digit_y = refl }
ljust_two-IsTwo (x ∷ y ∷ []) h = record {
  x = x;
  y = y;
  same = refl;
  digit_x = ground arith;
  digit_y = ground arith;
}
ljust_two-IsTwo (x ∷ y ∷ z ∷ text) h = absurd (cc h)

-- The two groups of a threshold are digits.
pub parts-AreDigits :
    (whole rest integer fraction : Text)
    → AreDigits whole
    → with_fraction (whole, rest) ≡ some (integer, fraction)
    → AreDigits integer × IsTwo (ljust_two fraction)
parts-AreDigits [] [] integer fraction h e = absurd (cc e)
parts-AreDigits (c ∷ whole) [] integer fraction h e =
    let same : c ∷ whole ≡ integer = cc e in
    let none_behind : [] ≡ fraction = cc e in
    (
      subst AreDigits same h,
      subst (λ f. IsTwo (ljust_two f)) none_behind
          (record { x = 48; y = 48; same = refl; digit_x = refl; digit_y = refl }),
    )
parts-AreDigits [] (c ∷ rest) integer fraction h e =
    elim (Bool-cases (c == 46 && is_fraction rest)) [
      | inr f ↦ ground arith
      | inl f ↦
          let same : [] ≡ integer = ground arith in
          let behind : rest ≡ fraction = ground arith in
          let two : is_fraction rest ≡ true = ground arith in
          (
            subst AreDigits same tt,
            subst (λ f. IsTwo (ljust_two f)) behind (ljust_two-IsTwo rest two),
          )
    ]
parts-AreDigits (d ∷ whole) (c ∷ rest) integer fraction h e =
    elim (Bool-cases (c == 46 && is_fraction rest)) [
      | inr f ↦ ground arith
      | inl f ↦
          let same : d ∷ whole ≡ integer = ground arith in
          let behind : rest ≡ fraction = ground arith in
          let two : is_fraction rest ≡ true = ground arith in
          (
            subst AreDigits same h,
            subst (λ f. IsTwo (ljust_two f)) behind (ljust_two-IsTwo rest two),
          )
    ]
