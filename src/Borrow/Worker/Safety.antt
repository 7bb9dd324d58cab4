-- ===== src/Borrow/Worker/Safety.antt =====
-- What every transaction of the borrow tasks keeps true.
use binance_funding_hedging.Prelude.{
  ℕ, ◌≡◌, ◌<◌, ◌≤◌, ◌∙◌, sym, Bool, true, some, List, update_where, All, All-update_where, All-map,
  All-zip, HasKeys, HasKeys-update_where,
}
use binance_funding_hedging.Borrow.Rows.{BorrowTask, BorrowAttempt}
use binance_funding_hedging.Borrow.Worker.{Running}

-- No more successes than asked for, and room for one more while an attempt is in flight.
abbrev pub IsBounded : BorrowTask → Type 0
IsBounded t =
    (t.success_count ≤ t.success_target)
    × ((m : ℕ) → t.unresolved_attempt_id ≡ some m → t.success_count < t.success_target)

-- The tasks of an attempt carry its marker.
abbrev pub IsMarkedBy : ℕ → List BorrowTask → BorrowAttempt → Type 0
IsMarkedBy m tasks a =
    a.id ≡ m → All (λ t. t.id ≡ a.task_id → t.unresolved_attempt_id ≡ some m) tasks

pub record Inv (w : Running) : Type 0 where
  pub bounded : All IsBounded w.store.tasks
  pub keyed : HasKeys (λ (t : BorrowTask). t.id) w.store.tasks
  pub numbered : All (λ a. a.id < w.store.next_attempt_id) w.store.attempts
  pub owned : (m : ℕ) → w.in_flight ≡ some m → All (IsMarkedBy m w.store.tasks) w.store.attempts

-- A write to some tasks that leaves their ids and their markers.
module _ (p : BorrowTask → Bool) (f : BorrowTask → BorrowTask)
    (same_id : (t : BorrowTask) → (f t).id ≡ t.id)
    (same_marker : (t : BorrowTask) → (f t).unresolved_attempt_id ≡ t.unresolved_attempt_id) where
  IsMarkedBy-update_where :
      (m : ℕ) (ts : List BorrowTask) (a : BorrowAttempt)
      → IsMarkedBy m ts a
      → IsMarkedBy m (update_where p f ts) a
  IsMarkedBy-update_where m ts a h e =
      All-update_where (λ t. t.id ≡ a.task_id → t.unresolved_attempt_id ≡ some m)
        (λ t. t.id ≡ a.task_id → t.unresolved_attempt_id ≡ some m) p f ts
        (λ t g _ q. same_marker t ∙ g (sym (same_id t) ∙ q)) (λ t g _. g) (h e)

  pub update_where-Inv :
      (w : Running)
      → Inv w
      → All (λ t. p t ≡ true → IsBounded t → IsBounded (f t)) w.store.tasks
      → Inv (record w { store = record w.store { tasks = update_where p f w.store.tasks } })
  update_where-Inv w h ok = record {
    bounded =
        All-update_where (λ t. (p t ≡ true → IsBounded t → IsBounded (f t)) × IsBounded t) IsBounded
          p f w.store.tasks (λ t g e. g.0 e g.1) (λ t g _. g.1)
          (All-zip (λ t. p t ≡ true → IsBounded t → IsBounded (f t)) IsBounded w.store.tasks ok
            h.bounded);
    keyed = HasKeys-update_where (λ (t : BorrowTask). t.id) p f same_id w.store.tasks h.keyed;
    numbered = h.numbered;
    owned = λ m e.
        All-map (IsMarkedBy m w.store.tasks) (IsMarkedBy m (update_where p f w.store.tasks))
          w.store.attempts (IsMarkedBy-update_where m w.store.tasks) (h.owned m e);
  }
