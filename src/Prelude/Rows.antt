-- ===== src/Prelude/Rows.antt =====
-- What an UPDATE does to the rows that satisfy a predicate.
use Prim.Native.Nat.{◌+◌, ◌≤◌}
use mathlib.Core.Path.{◌≡◌, refl, ap, ◌∙◌}
use mathlib.Core.Logic.{inl, inr}
use mathlib.Core.Bool.{Bool, true, false}
use mathlib.Core.List.{List, [], ◌∷◌}
use mathlib.Core.Option.{some}
use native.Mathlib.Omega.{arith}
use binance_funding_hedging.Prelude.Tests.{Bool-cases}
use binance_funding_hedging.Prelude.Lists.{find?, update_where, count_where, any, select, All}

module _ {ℓ} {A : Type ℓ} where
  -- Where the written rows satisfy Q, and the others as well, so do all.
  pub All-update_where {κ} :
      (P Q : A → Type κ) (p : A → Bool) (f : A → A) (xs : List A)
      → ((x : A) → P x → p x ≡ true → Q (f x))
      → ((x : A) → P x → p x ≡ false → Q x)
      → All P xs
      → All Q (update_where p f xs)
  All-update_where P Q p f [] hit miss h = h
  All-update_where P Q p f (x ∷ xs) hit miss h =
      let rest = All-update_where P Q p f xs hit miss h.1 in
      elim (Bool-cases (p x)) [
        | inl e ↦ rw e (hit x h.0 e, rest)
        | inr e ↦ rw e (miss x h.0 e, rest)
      ]

  pub count_where-update_where :
      (q p : A → Bool) (f : A → A) (xs : List A)
      → ((x : A) → q (f x) ≡ false)
      → count_where q (update_where p f xs) ≤ count_where q xs
  count_where-update_where q p f [] h = omega arith
  count_where-update_where q p f (x ∷ xs) h =
      let rest = count_where-update_where q p f xs h in let gone = h x in ground arith

  pub count_where-update_find? :
      (q p : A → Bool) (f : A → A) (xs : List A) (a : A)
      → ((x : A) → q (f x) ≡ false)
      → find? p xs ≡ some a
      → q a ≡ true
      → count_where q (update_where p f xs) + 1 ≤ count_where q xs
  count_where-update_find? q p f [] a h found held = cc found
  count_where-update_find? q p f (x ∷ xs) a h found held =
      let rest = count_where-update_where q p f xs h in
      let gone = h x in
      let later = count_where-update_find? q p f xs a h in
      elim (Bool-cases (p x)) [ inl e ↦ ground arith | inr e ↦ ground arith ]

  -- An UPDATE that leaves what is counted.
  pub count_where-kept :
      (q p : A → Bool) (f : A → A) (xs : List A)
      → ((x : A) → q (f x) ≡ q x)
      → count_where q (update_where p f xs) ≡ count_where q xs
  count_where-kept q p f [] h = refl
  count_where-kept q p f (x ∷ xs) h =
      let rest = count_where-kept q p f xs h in
      let same = h x in elim (Bool-cases (p x)) [ inl e ↦ ground arith | inr e ↦ ground arith ]

  pub any-count_where : (q : A → Bool) (xs : List A) → count_where q xs ≡ 0 → any q xs ≡ false
  any-count_where q [] h = refl
  any-count_where q (x ∷ xs) h =
      let rest = any-count_where q xs in
      elim (Bool-cases (q x)) [ inl e ↦ absurd (ground arith) | inr e ↦ ground arith ]

  count_where-find? :
      (q p : A → Bool) (xs : List A) (a : A)
      → find? p xs ≡ some a
      → q a ≡ true
      → 1 ≤ count_where q xs
  count_where-find? q p [] a found held = cc found
  count_where-find? q p (x ∷ xs) a found held =
      let later = count_where-find? q p xs a in
      elim (Bool-cases (p x)) [ inl e ↦ ground arith | inr e ↦ ground arith ]

  select-none :
      (p q : A → Bool) (xs : List A)
      → ((x : A) → p x ≡ true → q x ≡ true)
      → count_where q xs ≡ 0
      → select p xs ≡ []
  select-none p q [] h none_held = refl
  select-none p q (x ∷ xs) h none_held =
      let rest = select-none p q xs h in
      let held = h x in
      elim (Bool-cases (p x)) [ inl e ↦ absurd (ground arith) | inr e ↦ ground arith ]

  -- A row of which there is at most one is the only one that is selected.
  pub select-single :
      (p q hit : A → Bool) (xs : List A) (a : A)
      → ((x : A) → p x ≡ true → q x ≡ true)
      → count_where q xs ≤ 1
      → find? hit xs ≡ some a
      → p a ≡ true
      → select p xs ≡ a ∷ []
  select-single p q hit [] a h few found held = cc found
  select-single p q hit (x ∷ xs) a h few found held =
      let own = h a held in
      let here = h x in
      elim (Bool-cases (hit x)) [
        | inl e ↦
            let first : x ≡ a = ground arith in
            let chosen : p x ≡ true = ap p first ∙ held in
            let counted : q x ≡ true = here chosen in
            let none_left : count_where q xs ≡ 0 = ground arith in
            rw (chosen, select-none p q xs h none_left) (ap (λ y. y ∷ []) first)
        | inr e ↦
            let deeper : find? hit xs ≡ some a = ground arith in
            let one = count_where-find? q hit xs a deeper own in
            elim (Bool-cases (p x)) [
              | inl f ↦ absurd (ground arith)
              | inr f ↦ rw f (select-single p q hit xs a h (ground arith) deeper held)
            ]
      ]

  pub count_where-any : (q : A → Bool) (xs : List A) → any q xs ≡ false → count_where q xs ≡ 0
  count_where-any q [] h = refl
  count_where-any q (x ∷ xs) h = elim (Bool-cases (q x)) [
    | inl e ↦ ground arith
    | inr e ↦ let rest = count_where-any q xs in ground arith
  ]

module _ {ℓ} {A : Type ℓ} where
  pub All-map {κ μ} :
      (P : A → Type κ) (Q : A → Type μ) (xs : List A) → ((x : A) → P x → Q x) → All P xs → All Q xs
  All-map P Q [] f h = tt
  All-map P Q (x ∷ xs) f h = (f x h.0, All-map P Q xs f h.1)

  pub All-zip {κ} : (P Q : A → Type κ) (xs : List A) → All P xs → All Q xs → All (λ x. P x × Q x) xs
  All-zip P Q [] p q = p
  All-zip P Q (x ∷ xs) p q = ((p.0, q.0), All-zip P Q xs p.1 q.1)

  -- A row that is found by the predicate of an UPDATE was written by it.
  pub find?-update_where :
      (p : A → Bool) (f : A → A) (xs : List A) (b : A)
      → ((x : A) → p (f x) ≡ p x)
      → find? p (update_where p f xs) ≡ some b
      → (a : A) × (b ≡ f a)
  find?-update_where p f [] b keeps h = cc h
  find?-update_where p f (x ∷ xs) b keeps h =
      let here = keeps x in
      let later = find?-update_where p f xs b keeps in
      elim (Bool-cases (p x)) [ inl e ↦ (x, ground arith) | inr e ↦ later (ground arith) ]

  -- The first row of a predicate is still the first one after its UPDATE.
  pub find?-update_first :
      (p : A → Bool) (f : A → A) (xs : List A) (a : A)
      → ((x : A) → p (f x) ≡ p x)
      → find? p xs ≡ some a
      → find? p (update_where p f xs) ≡ some (f a)
  find?-update_first p f [] a keeps h = cc h
  find?-update_first p f (x ∷ xs) a keeps h =
      let here = keeps x in
      let later = find?-update_first p f xs a keeps in
      elim (Bool-cases (p x)) [
        | inl e ↦
            let first : x ≡ a = ground arith in
            let still : p (f x) ≡ true = here ∙ e in rw (e, still) (ap (λ y. some (f y)) first)
        | inr e ↦ rw (e, e) (later (ground arith))
      ]

  -- An UPDATE that hits no row.
  pub update_where-none :
      (p : A → Bool) (f : A → A) (xs : List A)
      → All (λ x. p x ≡ false) xs
      → (update_where p f xs ≡ xs) × (any p xs ≡ false)
  update_where-none p f [] h = (refl, refl)
  update_where-none p f (x ∷ xs) h =
      let (same, missed) = update_where-none p f xs h.1 in
      (rw h.0 (ap (λ ys. x ∷ ys) same), rw h.0 missed)
