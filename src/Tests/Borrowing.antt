-- ===== src/Tests/Borrowing.antt =====
-- Runs of the borrow tasks.
use binance_funding_hedging.Prelude.{
  ◌⊎◌, ℕ, ◌≡◌, ◌<◌, inl, refl, Bool, true, false, Option, none, some, [], ◌∷◌, String, arith,
}
use binance_funding_hedging.Decimal.{of_int}
use binance_funding_hedging.Borrow.Rows.{
  BorrowTask, BorrowAttempt, BorrowSettings, BorrowStore, ExecutorResult, borrowing, rate_limited,
  success, pending,
}
use binance_funding_hedging.Borrow.Settings.{is_cooling}
use binance_funding_hedging.Borrow.Tasks.{create_task}
use binance_funding_hedging.Borrow.Worker.{
  Deployment, dispatch_one, due, Reach, created, here, next,
}
use binance_funding_hedging.Borrow.Worker.Safety.{Inv}
use binance_funding_hedging.Borrow.Worker.Steps.{Reach-Inv}
use binance_funding_hedging.Borrow.Worker.Runs.{
  idle, dispatch_one-Reach, AreSpaced, due_times, due-AreSpaced,
}
use binance_funding_hedging.Borrow.Worker.Posted.{
  AreKeyed, dispatch_one-gated, dispatch_one-Resolved,
}
use binance_funding_hedging.Borrow.Attempts.{
  find_task, live_open, insert_pending_attempt, resolve_attempt, coalesced_into,
}
use binance_funding_hedging.Borrow.Choice.{select_next_task}
use binance_funding_hedging.Borrow.Gates.{
  insert_pending_attempt-exclusive, resolve_attempt-rate_limited,
}
use binance_funding_hedging.Borrow.Marker.{Resolved, resolve_attempt-Resolved}

abbrev borrower : ℕ → Option ℕ → BorrowTask
borrower task_id marker = record {
  id = task_id;
  asset = "USDT";
  amount_per_attempt = "10";
  success_target = 2;
  success_count = 0;
  status = borrowing;
  version = 1;
  creation_seq = task_id;
  updated_at_us = 1;
  live_authorized = true;
  unresolved_attempt_id = marker;
  latest_result_category = none;
  latest_result_business_code = none;
  latest_result_reason = none;
  latest_result_tran_id = none;
  latest_result_finished_at_us = none;
}

abbrev settings : Option ℕ → BorrowSettings
settings cooldown = record {
  interval_seconds = "2";
  interval_us = 2000000;
  round_robin_cursor = none;
  global_cooldown_until_us = cooldown;
  execution_enabled = true;
  requires_rearm = false;
  version = 1;
  updated_at_us = 1;
}

abbrev idle_store : Option ℕ → BorrowStore
idle_store cooldown = record {
  tasks = borrower 1 none ∷ borrower 2 none ∷ [];
  attempts = [];
  settings = settings cooldown;
  next_attempt_id = 1;
}

insert_run : (insert_pending_attempt 1 "USDT" "10" 6 7 1 true (idle_store none)).1 ≡ some 1
unfolding insert_pending_attempt
insert_run = refl

insert_pending_attempt-exclusive_example :
    ((t : BorrowTask) × (find_task (idle_store none) 1 ≡ some t)
      × (t.status ≡ borrowing)
      × (t.unresolved_attempt_id ≡ none)
      × (t.success_count < t.success_target)
      × (true ≡ true → live_open t (settings none) 7 ≡ true))
    × ((asset' amount' : String) (at' sent' cursor' : ℕ) (live' : Bool)
        → let s' = (insert_pending_attempt 1 "USDT" "10" 6 7 1 true (idle_store none)).0 in
          insert_pending_attempt 1 asset' amount' at' sent' cursor' live' s' ≡ (s', none))
insert_pending_attempt-exclusive_example =
    insert_pending_attempt-exclusive 1 "USDT" "10" 6 7 1 true (idle_store none) 1 insert_run

abbrev sent_row : BorrowAttempt
sent_row = record {
  id = 1;
  task_id = 1;
  asset = "USDT";
  sequence = 1;
  outcome = pending;
  result_category = none;
  business_code = none;
  reason = none;
  http_status = none;
  tran_id = none;
  requested_amount = "10";
  scheduled_at_us = 6;
  dispatched_at_us = some 7;
  finished_at_us = none;
}

abbrev sent_store : BorrowStore
sent_store = record {
  tasks = borrower 1 (some 1) ∷ borrower 2 none ∷ [];
  attempts = sent_row ∷ [];
  settings = settings none;
  next_attempt_id = 2;
}

abbrev banned : ExecutorResult
banned = record {
  result_category = rate_limited;
  business_code = none;
  reason = none;
  http_status = some 418;
  tran_id = none;
  retry_after_seconds = some (of_int 300);
}

banned_run : (resolve_attempt 1 banned 8 sent_store).1 ≡ true
unfolding resolve_attempt coalesced_into
banned_run = refl

resolve_attempt-rate_limited_example :
    let s' = (resolve_attempt 1 banned 8 sent_store).0 in
    insert_pending_attempt 2 "USDT" "10" 9 1000000000 2 true s' ≡ (s', none)
resolve_attempt-rate_limited_example =
    resolve_attempt-rate_limited 1 banned 8 sent_store refl banned_run 2 "USDT" "10" 9 1000000000 2
      (inl refl)

resolve_attempt-Resolved_example :
    (u : BorrowTask) × (find_task (resolve_attempt 1 banned 8 sent_store).0 1 ≡ some u)
    × Resolved banned (borrower 1 (some 1)) u
resolve_attempt-Resolved_example =
    resolve_attempt-Resolved 1 banned 8 sent_store sent_row (borrower 1 (some 1)) refl refl

-- After the second of two tasks it is the first one's turn again.
turn_run :
    select_next_task (borrower 1 none ∷ borrower 2 none ∷ []) (some 2) ≡ some (borrower 1 none)
unfolding select_next_task
turn_run = refl

abbrev empty_store : BorrowStore
empty_store = record { tasks = []; attempts = []; settings = settings none; next_attempt_id = 1 }

empty-Inv : Inv (idle empty_store)
empty-Inv = record { bounded = tt; keyed = tt; numbered = tt; owned = λ m e. tt }

abbrev created_store : BorrowStore
created_store = create_task 7 "USDT" "10" 1 3 empty_store

created-Reach : Reach (idle empty_store) (idle created_store)
created-Reach = next here (created (idle empty_store) 7 "USDT" "10" 1 3 tt tt (omega arith))

created_once-Inv : Inv (idle created_store)
created_once-Inv = Reach-Inv empty-Inv created-Reach

abbrev deployed : Deployment
deployed = record { is_execution_owner = true; live_mode = true; credentials_present = true }

abbrev borrowed : BorrowTask → ℕ → ExecutorResult
borrowed t attempt_id = record {
  result_category = success;
  business_code = none;
  reason = none;
  http_status = some 200;
  tran_id = some "1";
  retry_after_seconds = none;
}

Reach-Inv_example : Inv (idle (dispatch_one deployed borrowed 4 5 6 created_store).0)
Reach-Inv_example =
    Reach-Inv created_once-Inv (dispatch_one-Reach deployed borrowed 4 5 6 created_store)

dispatched : (dispatch_one deployed borrowed 4 5 6 (idle_store none)).1 ≡ true
unfolding dispatch_one
dispatched = refl

idle-AreKeyed : AreKeyed (idle_store none)
idle-AreKeyed = ((λ e. omega (arith, e), tt), (tt, tt))

dispatch_one-Resolved_example :
    (dispatch_one deployed borrowed 4 5 6 (idle_store none) ≡ (idle_store none, false))
    ⊎ ((t : BorrowTask) × (u : BorrowTask) × (find_task (idle_store none) t.id ≡ some t)
        × (find_task (dispatch_one deployed borrowed 4 5 6 (idle_store none)).0 t.id ≡ some u)
        × Resolved (borrowed t (idle_store none).next_attempt_id) t u)
dispatch_one-Resolved_example =
    dispatch_one-Resolved deployed borrowed 4 5 6 (idle_store none) idle-AreKeyed

dispatch_one-gated_example :
    (true ≡ true)
    × (true ≡ true → true ≡ true)
    × (is_cooling none 4 ≡ false)
    × ((t : BorrowTask) × (find_task (idle_store none) t.id ≡ some t)
        × (t.live_authorized ≡ true)
        × (t.status ≡ borrowing)
        × (t.unresolved_attempt_id ≡ none)
        × (t.success_count < t.success_target)
        × (true ≡ true → live_open t (settings none) 5 ≡ true)
        × (dispatch_one deployed borrowed 4 5 6 (idle_store none)
            ≡ dispatch_one deployed
                (λ _ _. borrowed t (idle_store none).next_attempt_id)
                4
                5
                6
                (idle_store none)))
dispatch_one-gated_example =
    dispatch_one-gated deployed borrowed 4 5 6 (idle_store none) idle-AreKeyed dispatched

due-AreSpaced_example : AreSpaced 10 (due_times 10 none (3 ∷ 8 ∷ 40 ∷ 45 ∷ 50 ∷ []))
due-AreSpaced_example = due-AreSpaced 10 none (3 ∷ 8 ∷ 40 ∷ 45 ∷ 50 ∷ [])

due_run : due_times 10 none (3 ∷ 8 ∷ 40 ∷ 45 ∷ 50 ∷ []) ≡ 3 ∷ 40 ∷ 50 ∷ []
unfolding due
due_run = refl
