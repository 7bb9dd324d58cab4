-- ===== src/Ledger/Match.antt =====
-- The repayment that is matched is the first one after the interest accrued.
use binance_funding_hedging.Prelude.{
  ℕ, ◌≡◌, ◌≤◌, Bool, true, false, Option, none, some, List, [], ◌∷◌, String, All, All-map,
  Bool-cases, Option-cases, inl, inr, arith, refl, find?, ◌&&◌, ◌<◌, if◌then◌else◌, sym, ◌∙◌,
}
use mathlib.Core.Path.{subst}
use text.Mathlib.Text.{◌==◌ as str_eq}
use binance_funding_hedging.Ledger.Repay.{
  RepayRecord, Entry, settlement_ms, is_terminal_repay, entry_le, insert_entry, sort_entries,
  entries_of, records_of, build_repay_match_index, settles_by, match_interest_repay,
}

-- The entries stand in the order of their times.
abbrev IsOrdered : List Entry → Type 0
IsOrdered [] = Unit
IsOrdered (e ∷ entries) = All (λ x. e.0 ≤ x.0) entries × IsOrdered entries

module _ (P : Entry → Type 0) where
  insert-All : (e : Entry) (xs : List Entry) → P e → All P xs → All P (insert_entry e xs)
  unfolding insert_entry
  insert-All e [] p h = (p, tt)
  insert-All e (x ∷ xs) p h = elim (Bool-cases (entry_le e x)) [
    | inl q ↦ rw q (p, h)
    | inr q ↦ rw q (h.0, insert-All e xs p h.1)
  ]

  All-insert : (e : Entry) (xs : List Entry) → All P (insert_entry e xs) → P e × All P xs
  unfolding insert_entry
  All-insert e [] = λ h. (h.0, tt)
  All-insert e (x ∷ xs) = by_order (All-insert e xs) (entry_le e x)
    where
      by_order :
          (All P (insert_entry e xs) → P e × All P xs)
          → (b : Bool) → All P (if b then e ∷ x ∷ xs else x ∷ insert_entry e xs)
          → P e × All P (x ∷ xs)
      by_order go true h = (h.0, h.1)
      by_order go false h = let (p, rest) = go h.1 in (p, (h.0, rest))

  sort-All : (xs : List Entry) → All P xs → All P (sort_entries xs)
  unfolding sort_entries
  sort-All [] h = tt
  sort-All (x ∷ xs) h = insert-All x (sort_entries xs) h.0 (sort-All xs h.1)

  All-sort : (xs : List Entry) → All P (sort_entries xs) → All P xs
  unfolding sort_entries
  All-sort [] h = tt
  All-sort (x ∷ xs) h = let (p, rest) = All-insert x (sort_entries xs) h in (p, All-sort xs rest)

entry_le-time :
    (a b : Entry) (c : Bool) → entry_le a b ≡ c → (c ≡ true → a.0 ≤ b.0) × (c ≡ false → b.0 ≤ a.0)
unfolding entry_le
entry_le-time a b c e = (λ q. ground arith, λ q. ground arith)

insert-IsOrdered : (e : Entry) (xs : List Entry) → IsOrdered xs → IsOrdered (insert_entry e xs)
unfolding insert_entry
insert-IsOrdered e [] h = (tt, tt)
insert-IsOrdered e (x ∷ xs) h = elim (Bool-cases (entry_le e x)) [
  | inl q ↦
      let less = (entry_le-time e x true q).0 refl in
      rw q ((less, All-map (λ y. x.0 ≤ y.0) (λ y. e.0 ≤ y.0) xs (λ y g. omega arith) h.0), h)
  | inr q ↦
      let more = (entry_le-time e x false q).1 refl in
      rw q (insert-All (λ y. x.0 ≤ y.0) e xs more h.0, insert-IsOrdered e xs h.1)
]

sort-IsOrdered : (xs : List Entry) → IsOrdered (sort_entries xs)
unfolding sort_entries
sort-IsOrdered [] = tt
sort-IsOrdered (x ∷ xs) = insert-IsOrdered x (sort_entries xs) (sort-IsOrdered xs)

-- An entry that is what entries_of makes of a record.
abbrev IsEntry : String → Entry → Type 0
IsEntry asset e =
    (settlement_ms e.1 ≡ some e.0)
    × (is_terminal_repay e.1 ≡ true)
    × (str_eq e.1.asset asset ≡ true)

-- The record repays the asset for good, at a time that is known.
abbrev pub IsRepaid : String → RepayRecord → ℕ → Type 0
IsRepaid asset r ms =
    (settlement_ms r ≡ some ms) × (is_terminal_repay r ≡ true) × (str_eq r.asset asset ≡ true)

entries_of-IsEntry :
    (asset : String) (rs : List RepayRecord) → All (IsEntry asset) (entries_of asset rs)
unfolding entries_of
entries_of-IsEntry asset [] = tt
entries_of-IsEntry asset (r ∷ rs) =
    let rest = entries_of-IsEntry asset rs in
    elim (Bool-cases (is_terminal_repay r && str_eq r.asset asset)) [
      | inr e ↦ rw e rest
      | inl e ↦ elim (Option-cases (settlement_ms r)) [
        | inl f ↦ rw (e, f) rest
        | inr (ms, f) ↦ rw (e, f) ((f, ground arith, ground arith), rest)
      ]
    ]

entries_of-All :
    (Q : Entry → Type 0) (asset : String) (rs : List RepayRecord)
    → All Q (entries_of asset rs)
    → All (λ r. (n : ℕ) → IsRepaid asset r n → Q (n, r)) rs
unfolding entries_of
entries_of-All Q asset [] = λ h. tt
entries_of-All Q asset (r ∷ rs) =
    by_kind (entries_of-All Q asset rs) (is_terminal_repay r && str_eq r.asset asset) refl
      (settlement_ms r) refl
  where
    by_kind :
        (All Q (entries_of asset rs) → All (λ r. (n : ℕ) → IsRepaid asset r n → Q (n, r)) rs)
        → (b : Bool) → (is_terminal_repay r && str_eq r.asset asset) ≡ b
        → (o : Option ℕ) → settlement_ms r ≡ o
        → All Q (
            if b
            then elim o [ none ↦ entries_of asset rs | some ms ↦ (ms, r) ∷ entries_of asset rs ]
            else entries_of asset rs)
        → All (λ r. (n : ℕ) → IsRepaid asset r n → Q (n, r)) (r ∷ rs)
    by_kind go false e o f h = (λ n repaid. absurd (ground arith), go h)
    by_kind go true e none f h = (λ n repaid. absurd (cc (repaid.0, f)), go h)
    by_kind go true e (some ms) f h =
        (λ n repaid. subst (λ k. Q (k, r)) (some_eq (sym f ∙ repaid.0)) h.0, go h.1)
      where
        some_eq : {a b : ℕ} → (let p : Option ℕ = some a in p ≡ some b) → a ≡ b
        some_eq q = cc q

-- The first of ordered entries that settles.
abbrev IsFirst : String → ℕ → List Entry → RepayRecord → Type 0
IsFirst asset accrued es m =
    (ms : ℕ) × IsRepaid asset m ms × (accrued ≤ ms) × All (λ e. accrued ≤ e.0 → ms ≤ e.0) es

find?-IsFirst :
    (asset : String) (accrued : ℕ) (es : List Entry) (m : RepayRecord)
    → All (IsEntry asset) es
    → IsOrdered es
    → find? (settles_by accrued) (records_of es) ≡ some m
    → IsFirst asset accrued es m
find?-IsFirst asset accrued [] m own ordered h = cc h
find?-IsFirst asset accrued (e ∷ es) m own ordered h =
    let (at, terminal, same) = own.0 in
    elim (Bool-cases (settles_by accrued e.1)) [
      | inl q ↦
          let first : e.1 ≡ m = ground arith in
          let late : accrued ≤ e.0 = ground (arith, at, q) in
          (
            e.0,
            subst (λ r. IsRepaid asset r e.0) first (at, terminal, same),
            late,
            (λ _. omega arith, All-map (λ x. e.0 ≤ x.0) _ es (λ x le _. le) ordered.0),
          )
      | inr q ↦
          let (ms, repaid, late, least) =
            find?-IsFirst asset accrued es m own.1 ordered.1 (ground arith) in
          (ms, repaid, late, (λ z. absurd (ground (arith, at, q, z)), least))
    ]

find?-none :
    (asset : String) (accrued : ℕ) (es : List Entry)
    → All (IsEntry asset) es
    → find? (settles_by accrued) (records_of es) ≡ none
    → All (λ e. e.0 < accrued) es
find?-none asset accrued [] own h = tt
find?-none asset accrued (e ∷ es) own h = elim (Bool-cases (settles_by accrued e.1)) [
  | inl q ↦ absurd (ground arith)
  | inr q ↦
      let at = own.0.0 in (ground (arith, at, q), find?-none asset accrued es own.1 (ground arith))
]

-- Interest of an asset that accrued at a time is matched with a repayment of that asset which repaid
-- everything and succeeded, settled at that time or later, and settled no later than any other such
-- repayment; it is matched with none only where each of them settled before.
pub match_interest_repay-first :
    (asset : String) (accrued : ℕ) (records : List RepayRecord)
    → let matched =
        match_interest_repay (some asset) (some accrued) (build_repay_match_index records) in
      ((m : RepayRecord)
        → matched ≡ some m
        → (ms : ℕ) × IsRepaid asset m ms
          × (accrued ≤ ms)
          × All (λ r. (n : ℕ) → IsRepaid asset r n → accrued ≤ n → ms ≤ n) records)
      × (matched ≡ none → All (λ r. (n : ℕ) → IsRepaid asset r n → n < accrued) records)
unfolding match_interest_repay build_repay_match_index
match_interest_repay-first asset accrued records =
    let raw = entries_of asset records in
    let own = sort-All (IsEntry asset) raw (entries_of-IsEntry asset records) in
    (
      λ m h.
          let (ms, repaid, late, least) =
            find?-IsFirst asset accrued (sort_entries raw) m own (sort-IsOrdered raw) h in
          (
            ms,
            repaid,
            late,
            entries_of-All (λ e. accrued ≤ e.0 → ms ≤ e.0) asset records
                (All-sort (λ e. accrued ≤ e.0 → ms ≤ e.0) raw least),
          ),
      λ h.
          entries_of-All (λ e. e.0 < accrued) asset records
            (All-sort (λ e. e.0 < accrued) raw (find?-none asset accrued (sort_entries raw) own h)),
    )
