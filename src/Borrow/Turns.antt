-- ===== src/Borrow/Turns.antt =====
-- Whose turn it is.
use binance_funding_hedging.Prelude.{
  ℕ, ◌≡◌, ◌<◌, ◌≤◌, ◌⊎◌, inl, inr, refl, none, some, List, [], ◌∷◌, arith, Option-cases, Bool-cases,
  find?, ltb, ◌==◌, All,
}
use mathlib.Core.Path.{subst}
use binance_funding_hedging.Borrow.Rows.{BorrowTask}
use binance_funding_hedging.Borrow.Choice.{next_after, select_next_task}

-- The tasks stand in the order of their creation.
abbrev pub Created : List BorrowTask → Type 0
Created [] = Unit
Created (t ∷ ts) = All (λ u. t.creation_seq ≤ u.creation_seq) ts × Created ts

-- Nothing stands between a place and a task.
abbrev pub IsNext : ℕ → List BorrowTask → BorrowTask → Type 0
IsNext seq ts t =
    (seq < t.creation_seq) × All (λ u. seq < u.creation_seq → t.creation_seq ≤ u.creation_seq) ts

after-All :
    (seq : ℕ) (t : BorrowTask) (ts : List BorrowTask)
    → All (λ u. t.creation_seq ≤ u.creation_seq) ts
    → All (λ u. seq < u.creation_seq → t.creation_seq ≤ u.creation_seq) ts
after-All seq t [] h = h
after-All seq t (u ∷ us) h = (λ _. h.0, after-All seq t us h.1)

next_after-IsNext :
    (seq : ℕ) (ts : List BorrowTask) (t : BorrowTask)
    → Created ts
    → next_after seq ts ≡ some t
    → IsNext seq ts t
next_after-IsNext seq [] t c h = cc h
next_after-IsNext seq (x ∷ xs) t c h = elim (Bool-cases (ltb seq x.creation_seq)) [
  | inl e ↦
      let same : x ≡ t = ground arith in
      let own : IsNext seq (x ∷ xs) x =
        (ground arith, (λ _. omega arith, after-All seq x xs c.0)) in
      subst (λ y. IsNext seq (x ∷ xs) y) same own
  | inr e ↦
      let (later, rest) = next_after-IsNext seq xs t c.1 (ground arith) in
      (later, (λ q. ground arith, rest))
]

next_after-none :
    (seq : ℕ) (ts : List BorrowTask) → next_after seq ts ≡ none → All (λ u. u.creation_seq ≤ seq) ts
next_after-none seq [] h = tt
next_after-none seq (x ∷ xs) h = elim (Bool-cases (ltb seq x.creation_seq)) [
  | inl e ↦ ground arith
  | inr e ↦ (ground arith, next_after-none seq xs (ground arith))
]

-- With the last task that was served still among the eligible ones, the next one is the one created
-- soonest after it, or the first of all when none was created after it.
pub select_next_task-IsNext :
    (first : BorrowTask) (rest : List BorrowTask) (cursor : ℕ) (last : BorrowTask)
    → Created (first ∷ rest)
    → find? (λ t. t.id == cursor) (first ∷ rest) ≡ some last
    → (t : BorrowTask) × (select_next_task (first ∷ rest) (some cursor) ≡ some t)
      × (IsNext last.creation_seq (first ∷ rest) t
          ⊎ ((t ≡ first) × All (λ u. u.creation_seq ≤ last.creation_seq) (first ∷ rest)))
unfolding select_next_task
select_next_task-IsNext first rest cursor last c h =
    elim (Option-cases (next_after last.creation_seq (first ∷ rest))) [
      | inl e ↦ (
        first,
        rw (select_next_task, h, e) refl,
        inr (refl, next_after-none last.creation_seq (first ∷ rest) e),
      )
      | inr (t, e) ↦ (
        t,
        rw (select_next_task, h, e) refl,
        inl (next_after-IsNext last.creation_seq (first ∷ rest) t c e),
      )
    ]
