-- ===== src/Prelude/Keys.antt =====
-- Tables with a primary key.
use Prim.Native.Nat.{ℕ}
use mathlib.Core.Path.{◌≡◌, sym, ◌∙◌, subst}
use mathlib.Core.Logic.{◌≢◌, inl, inr}
use mathlib.Core.Bool.{Bool, true}
use mathlib.Core.List.{List, [], ◌∷◌, ◌++◌}
use mathlib.Core.Option.{some}
use native.Mathlib.Omega.{arith}
use binance_funding_hedging.Prelude.Tests.{Bool-cases, ◌==◌}
use binance_funding_hedging.Prelude.Lists.{find?, update_where, select, All}
use binance_funding_hedging.Prelude.Rows.{All-update_where, All-map}

module _ {ℓ} {A : Type ℓ} (id : A → ℕ) where
  -- No two rows have the same id.
  abbrev pub HasKeys : List A → Type 0
  HasKeys [] = Unit
  HasKeys (t ∷ ts) = All (λ u. id u ≢ id t) ts × HasKeys ts

  -- The row that a read by id gives is the only one of that id.
  pub find?-only :
      (k : ℕ) (ts : List A) (t : A)
      → HasKeys ts
      → find? (λ u. id u == k) ts ≡ some t
      → All (λ u. id u ≡ k → u ≡ t) ts
  find?-only k [] t h e = tt
  find?-only k (x ∷ xs) t h e = elim (Bool-cases (id x == k)) [
    | inl own ↦
        let first : x ≡ t = ground arith in
        let id_of : id x ≡ k = ground arith in
        (
          λ _. first,
          All-map (λ u. id u ≢ id x) (λ u. id u ≡ k → u ≡ t) xs
              (λ u ne q. elim (ne (q ∙ sym id_of)) [ ]) h.0,
        )
    | inr other ↦ let rest = find?-only k xs t h.1 (ground arith) in (λ q. ground arith, rest)
  ]

  fresh-append :
      (t u : A) (ts : List A)
      → All (λ v. id v ≢ id t) ts
      → id u ≢ id t
      → All (λ v. id v ≢ id t) (ts ++ u ∷ [])
  fresh-append t u [] h ne = (ne, tt)
  fresh-append t u (x ∷ xs) h ne = (h.0, fresh-append t u xs h.1 ne)

  pub HasKeys-append :
      (u : A) (ts : List A) → HasKeys ts → All (λ v. id v ≢ id u) ts → HasKeys (ts ++ u ∷ [])
  HasKeys-append u [] h fresh = (tt, tt)
  HasKeys-append u (t ∷ ts) h fresh =
      (fresh-append t u ts h.0 (λ e. fresh.0 (sym e)), HasKeys-append u ts h.1 fresh.1)

  module _ (p : A → Bool) (f : A → A) (same : (t : A) → id (f t) ≡ id t) where
    fresh-update_where :
        (t : A) (ts : List A)
        → All (λ u. id u ≢ id t) ts
        → All (λ u. id u ≢ id t) (update_where p f ts)
    fresh-update_where t ts h =
        All-update_where (λ u. id u ≢ id t) (λ u. id u ≢ id t) p f ts
          (λ u ne _ e. ne (sym (same u) ∙ e)) (λ u ne _. ne) h

    fresh-written :
        (t : A) (ts : List A) → All (λ u. id u ≢ id t) ts → All (λ u. id u ≢ id (f t)) ts
    fresh-written t ts h =
        All-map (λ u. id u ≢ id t) (λ u. id u ≢ id (f t)) ts (λ u ne e. ne (e ∙ same t)) h

    pub HasKeys-update_where : (ts : List A) → HasKeys ts → HasKeys (update_where p f ts)
    HasKeys-update_where [] h = h
    HasKeys-update_where (t ∷ ts) h =
        let rest = HasKeys-update_where ts h.1 in
        let others = fresh-update_where t ts h.0 in
        elim (Bool-cases (p t)) [
          | inl e ↦ rw e (fresh-written t (update_where p f ts) others, rest)
          | inr e ↦ rw e (others, rest)
        ]

module _ {ℓ} {A : Type ℓ} where
  pub All-append {κ} :
      (P : A → Type κ) (xs : List A) (y : A) → All P xs → P y → All P (xs ++ y ∷ [])
  All-append P [] y h p = (p, tt)
  All-append P (x ∷ xs) y h p = (h.0, All-append P xs y h.1 p)

pub All-true {ℓ κ} : {A : Type ℓ} (P : A → Type κ) (xs : List A) → ((x : A) → P x) → All P xs
All-true P [] h = tt
All-true P (x ∷ xs) h = (h x, All-true P xs h)

pub All-select {ℓ κ} :
    {A : Type ℓ} (P : A → Type κ) (p : A → Bool) (xs : List A) → All P xs → All P (select p xs)
All-select P p [] h = tt
All-select P p (x ∷ xs) h = elim (Bool-cases (p x)) [
  | inl e ↦ rw e (h.0, All-select P p xs h.1)
  | inr e ↦ rw e (All-select P p xs h.1)
]

pub find?-holds {ℓ} :
    {A : Type ℓ} (p : A → Bool) (xs : List A) (a : A) → find? p xs ≡ some a → p a ≡ true
find?-holds p [] a e = cc e
find?-holds p (x ∷ xs) a e = elim (Bool-cases (p x)) [
  | inl own ↦ ground arith
  | inr other ↦ find?-holds p xs a (ground arith)
]

pub find?-All {ℓ κ} :
    {A : Type ℓ} (P : A → Type κ) (p : A → Bool) (xs : List A) (a : A)
    → All P xs
    → find? p xs ≡ some a
    → P a
find?-All P p [] a h e = absurd (cc e)
find?-All P p (x ∷ xs) a h e = elim (Bool-cases (p x)) [
  | inl own ↦ let same : x ≡ a = ground arith in subst P same h.0
  | inr other ↦ find?-All P p xs a h.1 (ground arith)
]
