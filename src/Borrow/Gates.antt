-- ===== src/Borrow/Gates.antt =====
-- What an attempt to borrow is let through for, and what holds it back.
use binance_funding_hedging.Prelude.{
  ℕ, ◌+◌, ◌≡◌, ◌<◌, ◌≤◌, ◌⊎◌, inl, inr, refl, Bool, true, none, some, List, [], ◌∷◌, String, arith,
  Option-cases, Bool-cases, find?, update_where, ◌==◌,
}
use binance_funding_hedging.Decimal.{Decimal}
use binance_funding_hedging.Borrow.Rows.{
  BorrowTask, BorrowAttempt, BorrowSettings, BorrowStore, ExecutorResult, borrowing, rate_limited,
}
use binance_funding_hedging.Borrow.Settings.{
  RetryAfter, seconds, clamp_retry_after, is_cooling, set_execution_enabled, retry_us,
  apply_rate_limit,
}
use binance_funding_hedging.Borrow.Attempts.{
  is_task, find_task, may_insert, live_open, insert_row, insert_pending_attempt, marked,
  resolve_attempt, coalesce_attempt, record_attempt, coalesced_into,
}

pub insert_pending_attempt-cases :
    (task_id : ℕ) (asset amount : String) (at sent cursor : ℕ) (live : Bool) (s : BorrowStore)
    → (insert_pending_attempt task_id asset amount at sent cursor live s ≡ (s, none))
      ⊎ ((t : BorrowTask) × (find_task s task_id ≡ some t)
          × (may_insert live t s.settings sent ≡ true)
          × (insert_pending_attempt task_id asset amount at sent cursor live s
              ≡ (insert_row task_id asset amount at sent cursor s, some s.next_attempt_id)))
unfolding insert_pending_attempt
insert_pending_attempt-cases task_id asset amount at sent cursor live s =
    elim (Option-cases (find_task s task_id)) [
      | inl e ↦ inl (rw (insert_pending_attempt, e) refl)
      | inr (t, e) ↦ elim (Bool-cases (may_insert live t s.settings sent)) [
        | inl go ↦ inr (t, e, go, rw (insert_pending_attempt, e, go) refl)
        | inr refused ↦ inl (rw (insert_pending_attempt, e, refused) refl)
      ]
    ]

-- Settings that hold every live attempt back at a time.
abbrev pub HoldsBack : BorrowSettings → ℕ → Type 0
HoldsBack settings sent =
    (settings.requires_rearm ≡ true) ⊎ (is_cooling settings.global_cooldown_until_us sent ≡ true)

held_back :
    (task_id : ℕ) (asset amount : String) (at sent cursor : ℕ) (s : BorrowStore)
    → HoldsBack s.settings sent
    → insert_pending_attempt task_id asset amount at sent cursor true s ≡ (s, none)
held_back task_id asset amount at sent cursor s h =
    elim (insert_pending_attempt-cases task_id asset amount at sent cursor true s) [
      | inl e ↦ e
      | inr (t, e, go, _) ↦ absurd (refused t go)
    ]
  where
    refused : (t : BorrowTask) → may_insert true t s.settings sent ≡ true → ⊥
    refused t go = ground arith

-- A manual start while a cooldown runs lets no live attempt out before the cooldown ends: an
-- insertion that is sent before its end makes no row and changes nothing.
pub set_execution_enabled-cooldown :
    (s : BorrowStore) (now until : ℕ)
    → s.settings.global_cooldown_until_us ≡ some until
    → now < until
    → (task_id : ℕ) (asset amount : String) (at sent cursor : ℕ) → sent < until
    → let s' = set_execution_enabled true now s in
      insert_pending_attempt task_id asset amount at sent cursor true s' ≡ (s', none)
unfolding set_execution_enabled
set_execution_enabled-cooldown s now until cooling early task_id asset amount at sent cursor
      before =
    held_back task_id asset amount at sent cursor (set_execution_enabled true now s)
      (inr (ground arith))

pub find_task-id :
    (k : ℕ) (ts : List BorrowTask) (t : BorrowTask) → find? (is_task k) ts ≡ some t → t.id ≡ k
find_task-id k [] t e = cc e
find_task-id k (x ∷ xs) t e = elim (Bool-cases (is_task k x)) [
  | inl own ↦ ground arith
  | inr other ↦ find_task-id k xs t (ground arith)
]

-- Every row of the task carries a marker after the insertion.
find_task-marked :
    (k attempt_id sent : ℕ) (ts : List BorrowTask) (t : BorrowTask)
    → find? (is_task k) (update_where (is_task k) (marked attempt_id sent) ts) ≡ some t
    → t.unresolved_attempt_id ≡ some attempt_id
find_task-marked k attempt_id sent [] t e = cc e
find_task-marked k attempt_id sent (x ∷ xs) t e =
    let later = find_task-marked k attempt_id sent xs t in
    elim (Bool-cases (is_task k x)) [ inl own ↦ ground arith | inr other ↦ later (ground arith) ]

insert_row-refuses :
    (task_id : ℕ) (asset amount : String) (at sent cursor : ℕ) (s : BorrowStore)
    → (asset' amount' : String) (at' sent' cursor' : ℕ) (live' : Bool)
    → let after = insert_row task_id asset amount at sent cursor s in
      insert_pending_attempt task_id asset' amount' at' sent' cursor' live' after ≡ (after, none)
unfolding insert_row
insert_row-refuses task_id asset amount at sent cursor s asset' amount' at' sent' cursor' live' =
    let after = insert_row task_id asset amount at sent cursor s in
    elim (insert_pending_attempt-cases task_id asset' amount' at' sent' cursor' live' after) [
      | inl e ↦ e
      | inr (u, found, go, _) ↦
          let mark = find_task-marked task_id s.next_attempt_id sent s.tasks u found in
          absurd (ground arith)
    ]

-- An attempt is inserted only for a borrowing task below its target with no attempt in flight, in
-- live mode only for an authorized task while the switch is on, no re-arm is asked for and no
-- cooldown runs; and while its marker stands no second attempt of the task is inserted.
pub insert_pending_attempt-exclusive :
    (task_id : ℕ) (asset amount : String) (at sent cursor : ℕ) (live : Bool) (s : BorrowStore)
    → (attempt_id : ℕ)
    → (insert_pending_attempt task_id asset amount at sent cursor live s).1 ≡ some attempt_id
    → ((t : BorrowTask) × (find_task s task_id ≡ some t)
        × (t.status ≡ borrowing)
        × (t.unresolved_attempt_id ≡ none)
        × (t.success_count < t.success_target)
        × (live ≡ true → live_open t s.settings sent ≡ true))
      × ((asset' amount' : String) (at' sent' cursor' : ℕ) (live' : Bool)
          → let s' = (insert_pending_attempt task_id asset amount at sent cursor live s).0 in
            insert_pending_attempt task_id asset' amount' at' sent' cursor' live' s' ≡ (s', none))
insert_pending_attempt-exclusive task_id asset amount at sent cursor live s attempt_id h =
    elim (insert_pending_attempt-cases task_id asset amount at sent cursor live s) [
      | inl e ↦ cc (h, e)
      | inr (t, found, go, e) ↦ (
        (t, found, ground arith, ground arith, ground arith, λ l. ground arith),
        λ asset' amount' at' sent' cursor' live'. rw e (
            insert_row-refuses task_id asset amount at sent cursor s asset' amount' at' sent'
              cursor' live'),
      )
    ]

-- The times of an active cooldown.
apply_rate_limit-holds :
    (r : ExecutorResult) (finished sent : ℕ) (settings : BorrowSettings)
    → (r.http_status ≡ some 418)
      ⊎ ((d : Decimal) × (r.retry_after_seconds ≡ some d) × (sent < finished + retry_us d))
    → HoldsBack (apply_rate_limit r finished settings) sent
unfolding apply_rate_limit
apply_rate_limit-holds r finished sent settings (inl ban) = inl (ground arith)
apply_rate_limit-holds r finished sent settings (inr (d, retry, early)) =
    inr (elim (Option-cases r.http_status) [ inl e ↦ ground arith | inr (n, e) ↦ ground arith ])

resolve_attempt-settings :
    (attempt_id : ℕ) (r : ExecutorResult) (finished : ℕ) (s : BorrowStore)
    → r.result_category ≡ rate_limited
    → (resolve_attempt attempt_id r finished s).1 ≡ true
    → (resolve_attempt attempt_id r finished s).0.settings ≡ apply_rate_limit r finished s.settings
unfolding resolve_attempt coalesce_attempt record_attempt
resolve_attempt-settings attempt_id r finished s limited found =
    elim (Option-cases (find? (λ (a : BorrowAttempt). a.id == attempt_id) s.attempts)) [
      | inl e ↦ ground arith
      | inr (a, e) ↦ elim (Option-cases (find_task s a.task_id)) [
        | inl f ↦ rw (resolve_attempt, e, f, limited) refl
        | inr (t, f) ↦ elim (Option-cases (coalesced_into r t attempt_id s.attempts)) [
          | inl g ↦ rw (resolve_attempt, e, f, g, limited) refl
          | inr (k, g) ↦ rw (resolve_attempt, e, f, g, limited) refl
        ]
      ]
    ]

-- After an attempt was resolved as rate limited, recorded or coalesced, no live attempt is inserted
-- before the exchange's time to retry has passed, and after a 418 at no time, in the database that
-- the resolution leaves.
pub resolve_attempt-rate_limited :
    (attempt_id : ℕ) (r : ExecutorResult) (finished : ℕ) (s : BorrowStore)
    → r.result_category ≡ rate_limited
    → (resolve_attempt attempt_id r finished s).1 ≡ true
    → (task_id : ℕ) (asset amount : String) (at sent cursor : ℕ)
    → (r.http_status ≡ some 418)
      ⊎ ((d : Decimal) × (r.retry_after_seconds ≡ some d) × (sent < finished + retry_us d))
    → let s' = (resolve_attempt attempt_id r finished s).0 in
      insert_pending_attempt task_id asset amount at sent cursor true s' ≡ (s', none)
resolve_attempt-rate_limited attempt_id r finished s limited found task_id asset amount at sent
      cursor h =
    held_back task_id asset amount at sent cursor (resolve_attempt attempt_id r finished s).0 (
      rw (resolve_attempt-settings attempt_id r finished s limited found)
        (apply_rate_limit-holds r finished sent s.settings h))

-- The time to retry is from 60 to 300 seconds whatever the header says, and the header's own number
-- where it lies between.
pub clamp_retry_after-window :
    (raw : RetryAfter)
    → (60 ≤ clamp_retry_after raw)
      × (clamp_retry_after raw ≤ 300)
      × ((n : ℕ) → raw ≡ seconds n → 60 ≤ n → n ≤ 300 → clamp_retry_after raw ≡ n)
unfolding clamp_retry_after
clamp_retry_after-window raw = (ground arith, ground arith, λ n e l u. ground arith)
