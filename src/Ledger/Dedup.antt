-- ===== src/Ledger/Dedup.antt =====
-- The deduplication of upstream rows: dedup_interest_rows, dedup_income_rows and dedup_capital_rows of
-- backend/ledger_flow/domain.py. They share one body, with the test on two rows' keys as the parameter.
use binance_funding_hedging.Prelude.{
  ◌≡◌, Bool, true, false, Option, none, some, List, [], ◌∷◌, ◌++◌, String, if◌then◌else◌, ◌&&◌,
  find?, any, Bool-cases, Option-cases, inl, inr, arith, refl, sym, ◌∙◌,
}
use text.Mathlib.Text.{◌==◌ as str_eq}
use text.Mathlib.TextEquality.{eq_iff}

-- The keys of the rows; the other columns pass through verbatim.
pub record InterestRow : Type 0 where
  pub tx_id : String
  pub interest : Option String

pub record IncomeRow : Type 0 where
  pub tran_id : String
  pub income_type : String
  pub income : Option String

pub record CapitalRow : Type 0 where
  pub id : String
  pub tran_id : String
  pub amount : Option String

-- The rows seen so far stand in the order of their arrival.
unfoldable pub dedup_onto {ℓ} : {A : Type ℓ} → (A → A → Bool) → List A → List A → List A
dedup_onto same seen [] = seen
dedup_onto same seen (r ∷ rows) =
    dedup_onto same (if any (same r) seen then seen else seen ++ r ∷ []) rows

unfoldable pub dedup {ℓ} : {A : Type ℓ} → (A → A → Bool) → List A → List A
unfolding dedup_onto
dedup same rows = dedup_onto same [] rows

unfoldable pub dedup_interest_rows : List InterestRow → List InterestRow
unfolding dedup
dedup_interest_rows = dedup (λ r s. str_eq r.tx_id s.tx_id)

-- The test of dedup_income_rows.
abbrev pub same_income : IncomeRow → IncomeRow → Bool
same_income r s = str_eq r.tran_id s.tran_id && str_eq r.income_type s.income_type

unfoldable pub dedup_income_rows : List IncomeRow → List IncomeRow
unfolding dedup
dedup_income_rows = dedup same_income

unfoldable pub dedup_capital_rows : List CapitalRow → List CapitalRow
unfolding dedup
dedup_capital_rows = dedup (λ r s. str_eq r.id s.id)

-- A test on keys.
pub record IsKeyTest {ℓ} {A : Type ℓ} (same : A → A → Bool) : Type ℓ where
  pub itself : (r : A) → same r r ≡ true
  pub swapped : (r s : A) → same r s ≡ true → same s r ≡ true
  pub chained : (r s t : A) → same r s ≡ true → same s t ≡ true → same r t ≡ true

-- No two rows have the same key.
abbrev pub AreDistinct {ℓ} : {A : Type ℓ} → (A → A → Bool) → List A → Type 0
AreDistinct same [] = Unit
AreDistinct same (r ∷ rows) = (any (same r) rows ≡ false) × AreDistinct same rows

module _ {ℓ} {A : Type ℓ} (same : A → A → Bool) (key : IsKeyTest same) where
  any-append :
      (p : A → Bool) (xs : List A) (y : A)
      → any p xs ≡ false
      → p y ≡ false
      → any p (xs ++ y ∷ []) ≡ false
  any-append p [] y h e = rw e refl
  any-append p (x ∷ xs) y h e = elim (Bool-cases (p x)) [
    | inl q ↦ absurd (ground arith)
    | inr q ↦ rw q (any-append p xs y (ground arith) e)
  ]

  any-at :
      (p : A → Bool) (x : A) (xs : List A)
      → any p (x ∷ xs) ≡ false
      → (p x ≡ false) × (any p xs ≡ false)
  any-at p x xs h = elim (Bool-cases (p x)) [
    | inl q ↦ absurd (ground arith)
    | inr q ↦ (q, ground arith)
  ]

  AreDistinct-append :
      (xs : List A) (y : A)
      → AreDistinct same xs
      → any (same y) xs ≡ false
      → AreDistinct same (xs ++ y ∷ [])
  AreDistinct-append [] y h e = (refl, tt)
  AreDistinct-append (x ∷ xs) y h e =
      let (apart, rest) = any-at (same y) x xs e in
      let other : same x y ≡ false = elim (Bool-cases (same x y)) [
        | inl q ↦ absurd (cc (key.swapped x y q, apart))
        | inr q ↦ q
      ] in
      (any-append (same x) xs y h.0 other, AreDistinct-append xs y h.1 rest)

  -- The row of a key in a list that a row of another key is put behind.
  find?-append :
      (p : A → Bool) (xs ys : List A)
      → find? p (xs ++ ys) ≡ elim (find? p xs) [ none ↦ find? p ys | some a ↦ some a ]
  find?-append p [] ys = refl
  find?-append p (x ∷ xs) ys = elim (Bool-cases (p x)) [
    | inl e ↦ rw e refl
    | inr e ↦ rw e (find?-append p xs ys)
  ]

  none-any : (p : A → Bool) (xs : List A) → find? p xs ≡ none → any p xs ≡ false
  none-any p [] h = refl
  none-any p (x ∷ xs) h = elim (Bool-cases (p x)) [
    | inl e ↦ absurd (ground arith)
    | inr e ↦ rw e (none-any p xs (ground arith))
  ]

  -- A key that is among the seen ones is not new under an equal key either.
  any-chained :
      (q r : A) (xs : List A) → same q r ≡ true → any (same r) xs ≡ true → any (same q) xs ≡ true
  any-chained q r [] e h = absurd (cc h)
  any-chained q r (x ∷ xs) e h = elim (Bool-cases (same r x)) [
    | inl f ↦ rw (key.chained q r x e f) refl
    | inr f ↦ elim (Bool-cases (same q x)) [
      | inl g ↦ rw g refl
      | inr g ↦ rw g (any-chained q r xs e (ground arith))
    ]
  ]

  seen-skip :
      (q r : A) (seen rows : List A)
      → any (same r) seen ≡ true
      → find? (same q) (seen ++ r ∷ rows) ≡ find? (same q) (seen ++ rows)
  seen-skip q r seen rows known = elim (Option-cases (find? (same q) seen)) [
    | inr (a, e) ↦
        rw (find?-append (same q) seen (r ∷ rows), find?-append (same q) seen rows, e) refl
    | inl e ↦
        let new : same q r ≡ false = elim (Bool-cases (same q r)) [
          | inl f ↦ absurd (cc (any-chained q r seen f known, none-any (same q) seen e))
          | inr f ↦ f
        ] in
        rw (find?-append (same q) seen (r ∷ rows), find?-append (same q) seen rows, e, new) refl
  ]

  append-find? :
      (p : A → Bool) (r : A) (seen rows : List A)
      → find? p ((seen ++ r ∷ []) ++ rows) ≡ find? p (seen ++ r ∷ rows)
  append-find? p r [] rows = refl
  append-find? p r (x ∷ xs) rows = elim (Bool-cases (p x)) [
    | inl e ↦ rw e refl
    | inr e ↦ rw e (append-find? p r xs rows)
  ]

  dedup_onto-first :
      (q : A) (seen rows : List A)
      → find? (same q) (dedup_onto same seen rows) ≡ find? (same q) (seen ++ rows)
  unfolding dedup_onto
  dedup_onto-first q seen [] =
      rw (find?-append (same q) seen [])
        (elim (Option-cases (find? (same q) seen)) [ inl e ↦ rw e refl | inr (a, e) ↦ rw e refl ])
  dedup_onto-first q seen (r ∷ rows) =
      let old = dedup_onto-first q seen rows in
      let new = dedup_onto-first q (seen ++ r ∷ []) rows in
      elim (Bool-cases (any (same r) seen)) [
        | inl e ↦ rw e (old ∙ sym (seen-skip q r seen rows e))
        | inr e ↦ rw e (new ∙ append-find? (same q) r seen rows)
      ]

  dedup_onto-AreDistinct :
      (seen rows : List A) → AreDistinct same seen → AreDistinct same (dedup_onto same seen rows)
  unfolding dedup_onto
  dedup_onto-AreDistinct seen [] h = h
  dedup_onto-AreDistinct seen (r ∷ rows) h = elim (Bool-cases (any (same r) seen)) [
    | inl e ↦ rw e (dedup_onto-AreDistinct seen rows h)
    | inr e ↦ rw e (dedup_onto-AreDistinct (seen ++ r ∷ []) rows (AreDistinct-append seen r h e))
  ]

  -- For a test on keys, the deduplicated rows have different keys, and for each key they hold the row
  -- that arrived first and no row where there was none.
  pub dedup-AreDistinct :
      (rows : List A)
      → AreDistinct same (dedup same rows)
        × ((q : A) → find? (same q) (dedup same rows) ≡ find? (same q) rows)
  unfolding dedup
  dedup-AreDistinct rows = (dedup_onto-AreDistinct [] rows tt, λ q. dedup_onto-first q [] rows)

pub income-IsKeyTest : IsKeyTest same_income
income-IsKeyTest = record {
  itself = λ r.
      let first = (eq_iff r.tran_id r.tran_id).1 refl in
      let second = (eq_iff r.income_type r.income_type).1 refl in ground arith;
  swapped = λ r s h.
      let first = sym ((eq_iff r.tran_id s.tran_id).0 (ground arith)) in
      let second = sym ((eq_iff r.income_type s.income_type).0 (ground arith)) in
      let first' = (eq_iff s.tran_id r.tran_id).1 first in
      let second' = (eq_iff s.income_type r.income_type).1 second in ground arith;
  chained = λ r s t h g.
      let first =
        (eq_iff r.tran_id s.tran_id).0 (ground arith)
        ∙ (eq_iff s.tran_id t.tran_id).0 (ground arith) in
      let second =
        (eq_iff r.income_type s.income_type).0 (ground arith)
        ∙ (eq_iff s.income_type t.income_type).0 (ground arith) in
      let first' = (eq_iff r.tran_id t.tran_id).1 first in
      let second' = (eq_iff r.income_type t.income_type).1 second in ground arith;
}
