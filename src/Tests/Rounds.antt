-- ===== src/Tests/Rounds.antt =====
-- Runs of the wait of a smooth task, of its pairs and of its worker's rounds, and of a formatted decimal.
use binance_funding_hedging.Prelude.{
  ◌≡◌, ◌≢◌, ◌<◌, ◌⊎◌, inl, true, false, none, some, Option, ℕ, [], ◌∷◌, refl, arith, any, ap,
}
use binance_funding_hedging.Decimal.{Decimal, of_int}
use binance_funding_hedging.Decimal.Plain.{plain_decimal}
use binance_funding_hedging.Decimal.Format.{fmt_decimal}
use binance_funding_hedging.Decimal.Format.Parsed.{IsSame, IsShortest, plain_decimal-fmt_decimal}
use binance_funding_hedging.Hedge.Vocabulary.{running, smooth, manual, close_task}
use binance_funding_hedging.Hedge.Store.Rows.{Task, Store, open_side}
use binance_funding_hedging.Hedge.Store.Counters.{
  transition_log, settle_done, verdict, counted_verdict, count_success, count_failure,
}
use binance_funding_hedging.Hedge.Store.Tasks.{get_task}
use binance_funding_hedging.Hedge.Store.Gates.{gate_set}
use binance_funding_hedging.Hedge.Store.Invariant.{Inv}
use binance_funding_hedging.Hedge.Attempt.{spot, perp}
use binance_funding_hedging.Hedge.Worker.Dispatch.{LiveAttemptDispatch}
use binance_funding_hedging.Hedge.Worker.Close.{Funds, flat}
use binance_funding_hedging.Hedge.Worker.Wait.{Look, Pass, waiting, wait_loop}
use binance_funding_hedging.Hedge.Worker.Wait.Passed.{IsPass, IsAmong, wait_loop-IsPass}
use binance_funding_hedging.Hedge.Worker.Wait.Ended.{IsStarted, wait_loop-ends}
use binance_funding_hedging.Hedge.Worker.Checks.{Words, Reads, Release}
use binance_funding_hedging.Hedge.Worker.Pair.{dispatch_one_for_task}
use binance_funding_hedging.Hedge.Worker.Pair.Gated.{answered, dispatch_one_for_task-gated}
use binance_funding_hedging.Hedge.Worker.Round.{Inputs, Turn, next_round, run_task_worker}
use binance_funding_hedging.Hedge.Worker.Round.Gated.{next_round-gated}
use binance_funding_hedging.Hedge.Worker.Round.Sound.{AreSafe, run_task_worker-Inv}
use binance_funding_hedging.Tests.Database.{settings, task, database}
use binance_funding_hedging.Tests.Workers.{both_filled, answer, drain, filled}

abbrev one_and_a_half : Decimal
one_and_a_half = record { units = 150; places = 2 }

plain_decimal-fmt_decimal_example :
    (e : Decimal) × (plain_decimal (fmt_decimal one_and_a_half) ≡ some e)
    × IsSame e one_and_a_half
    × IsShortest e
plain_decimal-fmt_decimal_example = plain_decimal-fmt_decimal one_and_a_half

-- A smooth open that the operator has released.
abbrev smooth_task : Task
smooth_task = record task {
  mode = smooth;
  smooth_gate_seq = some 1;
  smooth_gate_started_at_us = some 1;
  smooth_gate_force_requested = true;
}

abbrev smooth_database : Store
smooth_database = record database {
  tasks = smooth_task ∷ [];
  settings = gate_set open_side true settings;
}

smooth-Inv : Inv smooth_database
smooth-Inv = record {
  sound = (record { counts = ground arith; single = omega arith }, tt);
  keyed = (tt, tt);
}

abbrev quiet : Store → Store
quiet s = s

abbrev look : Look
look = record { others = quiet; stop_event = false; now_us = 9; spot = none; perp = none }

abbrev late_look : Look
late_look = record look { now_us = 300000009 }

abbrev release_pass : Pass
release_pass = record {
  task = smooth_task;
  gate_seq = 1;
  reason = manual;
  passed_at_us = 9;
  spot_ask = none;
}

wait_loop-IsPass_example :
    (l : Look) × IsAmong l (look ∷ [])
    × IsPass 1 1 l (wait_loop 1 1 (look ∷ []) smooth_database).0 release_pass
unfolding wait_loop
wait_loop-IsPass_example = wait_loop-IsPass 1 1 (look ∷ []) smooth_database release_pass refl

smooth-IsStarted : IsStarted 1 1 1 smooth_database
smooth-IsStarted t found own = cc found

wait_loop-ends_example : (wait_loop 1 1 (late_look ∷ []) smooth_database).1 ≢ waiting
wait_loop-ends_example =
    wait_loop-ends 1 1 1 late_look (late_look ∷ []) smooth_database smooth-IsStarted
      ((λ s h. h), tt) (inl refl) (omega arith)

abbrev words : Words
words = record {
  loads = λ text. record { route = none; est_price = none };
  dumps = λ rec. "{}";
  reason_zh = λ reason. "";
}

abbrev funds : Funds
funds = record {
  um_cached = none;
  um_asked = some flat;
  spot_cached = none;
  spot_asked = some (of_int 1);
  unified_cached = none;
  unified_asked = none;
  transferred = false;
  pm_total_available = some (of_int 9);
}

abbrev both_sent : LiveAttemptDispatch
both_sent = record both_filled { spot_leg = answer spot none; perp_leg = answer perp none }

abbrev reads : Reads
reads = record {
  snapshot = none;
  funds = funds;
  is_multiplier = false;
  leverage_set = true;
  during = quiet;
  fresh_cycle_id = 1;
  attempt_uuid = "a";
  spot_client_order_id = "s1";
  perp_client_order_id = "p1";
  spot_request_shape = "";
  perp_request_shape = "";
  dispatched = both_sent;
}

abbrev release : Release
release = record { gate_seq = some 1; reason = some manual; spot_ask = none }

-- The database with the start gate off.
abbrev gated_database : Store
gated_database = record smooth_database { settings = settings }

dispatch_one_for_task-gated_example :
    dispatch_one_for_task words (answered reads both_filled) release smooth_task 9 gated_database
    ≡ dispatch_one_for_task words
        (answered reads (record both_filled { rate_limited = true }))
        release
        smooth_task
        9
        gated_database
dispatch_one_for_task-gated_example =
    dispatch_one_for_task-gated words reads release smooth_task 9 gated_database both_filled
      (record both_filled { rate_limited = true }) (inl refl)

-- The pair that was not sent is settled as a failure.
abbrev figures : Option Task → ℕ × ℕ × ℕ
figures none = (0, 0, 0)
figures (some t) = (t.scheduled_attempt_count, t.fail_count, t.consecutive_submission_failures)

unsent_run :
    figures (get_task (dispatch_one_for_task words reads release smooth_task 9 gated_database).0 1)
    ≡ (1, 1, 1)
unfolding dispatch_one_for_task transition_log settle_done verdict counted_verdict count_failure
unsent_run = refl

abbrev inputs : Inputs
inputs = record {
  now_us = 8;
  stop_event = false;
  stopped_in_wait = false;
  query = filled;
  position = some flat;
  subscribed = true;
  looks = look ∷ [];
  pair = reads;
}

next_round-reserves :
    (next_round words inputs smooth_task 8 smooth_database).0.attempts ≢ smooth_database.attempts
unfolding next_round transition_log settle_done verdict counted_verdict count_success
next_round-reserves h = let both : true ≡ false = ap (any (λ a. true)) h in cc both

next_round-gated_example :
    (smooth_task.status ≡ running)
    × (smooth_database.settings.start_gate ≡ true)
    × ((smooth_task.task_type ≢ close_task) ⊎ (smooth_database.settings.close_gate ≡ true))
    × (smooth_task.scheduled_attempt_count < smooth_task.target_n)
next_round-gated_example =
    next_round-gated words inputs smooth_task 8 smooth_database next_round-reserves

inputs-AreSafe : AreSafe inputs
inputs-AreSafe = record {
  timed = omega arith;
  looks = (record { timed = omega arith; others = λ s h. h }, tt);
  during = λ s h. h;
}

abbrev turn : Turn
turn = record { others = quiet; inputs = inputs }

run_task_worker-Inv_example :
    Inv (run_task_worker words 1 (turn ∷ turn ∷ turn ∷ []) (drain smooth_database)).store
run_task_worker-Inv_example =
    run_task_worker-Inv words 1 (turn ∷ turn ∷ turn ∷ []) (drain smooth_database)
      (
        record { others = λ s h. h; inputs = inputs-AreSafe },
        (
          record { others = λ s h. h; inputs = inputs-AreSafe },
          (record { others = λ s h. h; inputs = inputs-AreSafe }, tt),
        ),
      )
      smooth-Inv
