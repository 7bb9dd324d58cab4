-- ===== src/Borrow/Worker/Posted.antt =====
-- What one dispatch of the borrow worker sends, and what it leaves behind.
use binance_funding_hedging.Prelude.{
  ◌+◌, ℕ, ◌≡◌, ◌<◌, ◌⊎◌, inl, inr, refl, Bool, true, false, none, some, List, [], ◌∷◌, Option,
  Option-cases, Bool-cases, arith, ltb, All, find?, ◌==◌, find?-only, find?-All, All-select,
  HasKeys, find?-update_first, sym, ◌∙◌, ap,
}
use mathlib.Core.Path.{subst}
use binance_funding_hedging.Borrow.Rows.{
  BorrowTask, BorrowAttempt, BorrowStore, ExecutorResult, borrowing,
}
use binance_funding_hedging.Borrow.Settings.{is_cooling}
use binance_funding_hedging.Borrow.Attempts.{
  is_task, find_task, live_open, may_insert, marked, pending_row, last_sequence, insert_row,
  insert_pending_attempt, resolve_attempt,
}
use binance_funding_hedging.Borrow.Choice.{
  is_eligible, list_eligible_tasks, next_after, select_next_task,
}
use binance_funding_hedging.Borrow.Gates.{insert_pending_attempt-cases}
use binance_funding_hedging.Borrow.Marker.{Resolved, resolve_attempt-Resolved}
use binance_funding_hedging.Borrow.Worker.{Deployment, may_dispatch, borrow_once, dispatch_one}

-- The task whose turn it is stands in the list.
select_next_task-All :
    (P : BorrowTask → Type 0) (ts : List BorrowTask) (cursor : Option ℕ) (t : BorrowTask)
    → All P ts
    → select_next_task ts cursor ≡ some t
    → P t
unfolding select_next_task
select_next_task-All P [] cursor t h e = absurd (cc e)
select_next_task-All P (first ∷ rest) none t h e = let same : first ≡ t = cc e in subst P same h.0
select_next_task-All P (first ∷ rest) (some cursor) t h e =
    elim (Option-cases (find? (λ t. t.id == cursor) (first ∷ rest))) [
      | inl f ↦ let same : first ≡ t = ground arith in subst P same h.0
      | inr (last, f) ↦ elim (Option-cases (next_after last.creation_seq (first ∷ rest))) [
        | inl g ↦ let same : first ≡ t = ground arith in subst P same h.0
        | inr (u, g) ↦
            let same : u ≡ t = ground arith in
            subst P same
              (find?-All P (λ x. ltb last.creation_seq x.creation_seq) (first ∷ rest) u h g)
      ]
    ]

-- The ids of the tasks are distinct.
abbrev pub AreKeyed : BorrowStore → Type 0
AreKeyed s = HasKeys (λ (t : BorrowTask). t.id) s.tasks

module _ (d : Deployment) (at dispatched finished : ℕ) (s : BorrowStore) where
  abbrev row_for : BorrowTask → BorrowStore
  row_for t = insert_row t.id t.asset t.amount_per_attempt at dispatched t.id s

  -- What a dispatch that sends has found.
  record IsChosen (t : BorrowTask) : Type 0 where
    go : may_dispatch d s.settings.global_cooldown_until_us at ≡ true
    chosen : select_next_task (list_eligible_tasks s.tasks) s.settings.round_robin_cursor ≡ some t
    found : find_task s t.id ≡ some t
    insertable : may_insert d.live_mode t s.settings dispatched ≡ true
    inserted :
        insert_pending_attempt t.id t.asset t.amount_per_attempt at dispatched t.id d.live_mode s
        ≡ (row_for t, some s.next_attempt_id)

  -- The row that a choice has is the one in the database.
  chosen-row :
      (t u : BorrowTask)
      → AreKeyed s
      → select_next_task (list_eligible_tasks s.tasks) s.settings.round_robin_cursor ≡ some t
      → find_task s t.id ≡ some u
      → t ≡ u
  unfolding list_eligible_tasks
  chosen-row t u keyed e found =
      select_next_task-All (λ v. v.id ≡ t.id → v ≡ u) (list_eligible_tasks s.tasks)
        s.settings.round_robin_cursor t
        (All-select (λ v. v.id ≡ t.id → v ≡ u) is_eligible s.tasks
          (find?-only (λ (v : BorrowTask). v.id) t.id s.tasks u keyed found))
        e refl

  sent-IsChosen :
      (execute : BorrowTask → ℕ → ExecutorResult)
      → AreKeyed s
      → (dispatch_one d execute at dispatched finished s ≡ (s, false))
        ⊎ ((t : BorrowTask) × IsChosen t)
  unfolding dispatch_one borrow_once
  sent-IsChosen execute keyed =
      elim (Bool-cases (may_dispatch d s.settings.global_cooldown_until_us at)) [
        | inr e ↦ inl (rw (dispatch_one, e) refl)
        | inl e ↦
            elim (Option-cases
              (select_next_task (list_eligible_tasks s.tasks) s.settings.round_robin_cursor)) [
                | inl f ↦ inl (rw (dispatch_one, e, f) refl)
                | inr (t, f) ↦
                    elim (insert_pending_attempt-cases t.id t.asset t.amount_per_attempt at
                      dispatched t.id d.live_mode s) [
                        | inl g ↦ inl (rw (dispatch_one, e, f, borrow_once, g) refl)
                        | inr (u, found, insertable, g) ↦
                            let same = chosen-row t u keyed f found in
                            inr (
                              t,
                              record {
                                go = e;
                                chosen = f;
                                found = found ∙ ap some (sym same);
                                insertable =
                                    subst
                                      (λ v. may_insert d.live_mode v s.settings dispatched ≡ true)
                                      (sym same) insertable;
                                inserted = g;
                              },
                            )
                      ]
              ]
      ]

  chosen-authorized : (t : BorrowTask) → IsChosen t → t.live_authorized ≡ true
  unfolding list_eligible_tasks
  chosen-authorized t c =
      select_next_task-All (λ v. v.live_authorized ≡ true) (list_eligible_tasks s.tasks)
        s.settings.round_robin_cursor t (eligible s.tasks) c.chosen
    where
      eligible :
          (ts : List BorrowTask) → All (λ v. v.live_authorized ≡ true) (list_eligible_tasks ts)
      eligible [] = tt
      eligible (x ∷ ts) = elim (Bool-cases (is_eligible x)) [
        | inl e ↦ rw e (ground arith, eligible ts)
        | inr e ↦ rw e (eligible ts)
      ]

  -- What it then does with any executor.
  chosen-sent :
      (execute : BorrowTask → ℕ → ExecutorResult) (t : BorrowTask)
      → IsChosen t
      → dispatch_one d execute at dispatched finished s ≡ (
        (resolve_attempt s.next_attempt_id (execute t s.next_attempt_id) finished (row_for t)).0,
        true,
      )
  unfolding dispatch_one borrow_once
  chosen-sent execute t c =
      let m = s.next_attempt_id in
      rw (dispatch_one, c.go, c.chosen, borrow_once, c.inserted)
        (ap (λ made. ((resolve_attempt m (execute t m) finished made.0).0, true)) c.inserted)

-- A POST leaves only from the owner of the execution, in live mode only with credentials and while no
-- cooldown runs. It is for a task that stands in the database as it is sent: authorized, borrowing, below
-- its target and without an attempt in flight; in live mode the switch is on and no re-arm is asked for
-- when it leaves. No other task is sent: the dispatch comes out as if every answer of the executor were the
-- one to this task and the new attempt.
pub dispatch_one-gated :
    (d : Deployment) (execute : BorrowTask → ℕ → ExecutorResult) (at dispatched finished : ℕ)
    → (s : BorrowStore) → AreKeyed s
    → (dispatch_one d execute at dispatched finished s).1 ≡ true
    → (d.is_execution_owner ≡ true)
      × (d.live_mode ≡ true → d.credentials_present ≡ true)
      × (is_cooling s.settings.global_cooldown_until_us at ≡ false)
      × ((t : BorrowTask) × (find_task s t.id ≡ some t)
          × (t.live_authorized ≡ true)
          × (t.status ≡ borrowing)
          × (t.unresolved_attempt_id ≡ none)
          × (t.success_count < t.success_target)
          × (d.live_mode ≡ true → live_open t s.settings dispatched ≡ true)
          × (dispatch_one d execute at dispatched finished s
              ≡ dispatch_one d (λ _ _. execute t s.next_attempt_id) at dispatched finished s))
dispatch_one-gated d execute at dispatched finished s keyed h =
    elim (sent-IsChosen d at dispatched finished s execute keyed) [
      | inl e ↦ absurd (cc (e, h))
      | inr (t, c) ↦
          let go = c.go in
          let insertable = c.insertable in
          let authorized = chosen-authorized d at dispatched finished s t c in
          let fixed = λ (_ : BorrowTask) (_ : ℕ). execute t s.next_attempt_id in
          (
            ground arith,
            λ l. ground arith,
            ground arith,
            (
              t,
              c.found,
              authorized,
              ground arith,
              ground arith,
              ground arith,
              λ l. ground arith,
              chosen-sent d at dispatched finished s execute t c
                  ∙ sym (chosen-sent d at dispatched finished s fixed t c),
            ),
          )
    ]

pending-found :
    (a : BorrowAttempt) (attempts : List BorrowAttempt)
    → find? (λ (b : BorrowAttempt). b.id == a.id) (a ∷ attempts) ≡ some a
pending-found a attempts = let own : (a.id == a.id) ≡ true = ground arith in rw own refl

-- A dispatch that sends nothing leaves the database alone. One that sends ends with its attempt settled
-- by the answer: the task, which was in the database, is released, a success counts one more and another
-- result leaves count and status, and a deleted task stays deleted.
pub dispatch_one-Resolved :
    (d : Deployment) (execute : BorrowTask → ℕ → ExecutorResult) (at dispatched finished : ℕ)
    → (s : BorrowStore) → AreKeyed s
    → (dispatch_one d execute at dispatched finished s ≡ (s, false))
      ⊎ ((t : BorrowTask) × (u : BorrowTask) × (find_task s t.id ≡ some t)
          × (find_task (dispatch_one d execute at dispatched finished s).0 t.id ≡ some u)
          × Resolved (execute t s.next_attempt_id) t u)
unfolding insert_row
dispatch_one-Resolved d execute at dispatched finished s keyed =
    elim (sent-IsChosen d at dispatched finished s execute keyed) [
      | inl e ↦ inl e
      | inr (t, c) ↦
          let m = s.next_attempt_id in
          let row = row_for d at dispatched finished s t in
          let t' = marked m dispatched t in
          let pending =
            pending_row m t.id t.asset (last_sequence t.id s.attempts + 1) t.amount_per_attempt at
              dispatched in
          let marker : find_task row t.id ≡ some t' =
            find?-update_first (is_task t.id) (marked m dispatched) s.tasks t (λ u. refl) c.found in
          let (u, found, resolved) =
            resolve_attempt-Resolved m (execute t m) finished row pending t'
              (pending-found pending s.attempts) marker in
          inr (
            t,
            u,
            c.found,
            ap (λ (p : BorrowStore × Bool). find_task p.0 t.id)
                  (chosen-sent d at dispatched finished s execute t c)
                ∙ found,
            record {
              released = resolved.released;
              borrowed = resolved.borrowed;
              not_borrowed = resolved.not_borrowed;
              still_deleted = resolved.still_deleted;
              moved = resolved.moved;
            },
          )
    ]
