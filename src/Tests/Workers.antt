-- ===== src/Tests/Workers.antt =====
-- Runs of the worker of a hedge-open task.
use binance_funding_hedging.Prelude.{
  ◌≡◌, true, false, Option, none, some, [], ◌∷◌, String, refl, arith, find?, ◌==◌,
}
use binance_funding_hedging.Decimal.{of_int}
use binance_funding_hedging.Hedge.Errors.{ok}
use binance_funding_hedging.Hedge.Vocabulary.{open_task, accepted_or_querying, terminal_recorded}
use binance_funding_hedging.Hedge.Attempt.{LegName, spot, perp}
use binance_funding_hedging.Hedge.Store.Rows.{Attempt, Leg, Store}
use binance_funding_hedging.Hedge.Store.Tasks.{in_flight}
use binance_funding_hedging.Hedge.Store.Settle.{closed_legs}
use binance_funding_hedging.Hedge.Store.Invariant.{Inv}
use binance_funding_hedging.Hedge.Worker.Verdicts.{Signal, signal_order_state_unknown, LegDispatch}
use binance_funding_hedging.Hedge.Worker.Drain.{
  Drain, drain_leg, settle_drained, recover_crash_gaps, reconcile_own_legs,
}
use binance_funding_hedging.Hedge.Worker.Dispatch.{LiveAttemptDispatch, dispatch_live}
use binance_funding_hedging.Hedge.Worker.Untouched.{IsClosing, drain_leg-IsClosing}
use binance_funding_hedging.Hedge.Worker.Budget.{rounds, rounds-escalates}
use binance_funding_hedging.Hedge.Worker.Sound.{reconcile_own_legs-Inv}
use binance_funding_hedging.Hedge.Worker.Progress.{recover_crash_gaps-settles}
use binance_funding_hedging.Hedge.Worker.Settled.{dispatch_live-Inv}
use binance_funding_hedging.Hedge.Worker.Uncounted.{AreCountsKept, settle_drained-uncounted}
use binance_funding_hedging.Tests.Settlements.{attempt, spot_row, reserved_database, reserved-Inv}

-- The pair's spot leg, sent and not known to be filled.
abbrev sent_leg : Leg
sent_leg = record spot_row { dispatch_state = accepted_or_querying; terminal = false }

abbrev sent_database : Store
sent_database = record reserved_database { legs = sent_leg ∷ [] }

abbrev pub drain : Store → Drain
drain s = record { store = s; retries = λ k. 0; stamp_pending = []; finalized = []; signal = none }

abbrev pub answer : LegName → Option String → LegDispatch
answer name status = record {
  leg = name;
  dispatch_state = accepted_or_querying;
  order_id = some "11";
  exchange_status = status;
  executed_qty = of_int 1;
  cumulative_quote = some (of_int 9);
  avg_price = none;
  rate_limited = false;
  error_code = none;
  error_category = none;
}

abbrev pub filled : Leg → Option LegDispatch
filled l = some (answer spot (some "FILLED"))

abbrev silent : Leg → Option LegDispatch
silent l = none

abbrev drained_leg : Leg
drained_leg = record sent_leg {
  order_id = some "11";
  cumulative_quote_amt = some (of_int 9);
  dispatch_state = terminal_recorded;
  last_query_at_us = some 7;
  terminal = true;
}

drained_run :
    find? (λ (l : Leg). l.id == 1) (drain_leg filled 7 sent_leg (drain sent_database)).store.legs
    ≡ some drained_leg
unfolding drain_leg
drained_run = refl

drain_leg-IsClosing_example :
    (v : LegDispatch) × (some (answer spot (some "FILLED")) ≡ some v) × IsClosing v 1
drain_leg-IsClosing_example =
    drain_leg-IsClosing filled 7 sent_leg sent_leg drained_leg (drain sent_database) refl refl
      drained_run refl

rounds-escalates_example :
    ((rounds silent 7 sent_leg 10 (drain sent_database)).signal ≡ some signal_order_state_unknown)
    × ((rounds silent 7 sent_leg 10 (drain sent_database)).store ≡ sent_database)
rounds-escalates_example = rounds-escalates silent 7 sent_leg refl (drain sent_database)

reconcile_own_legs-Inv_example : Inv (reconcile_own_legs filled 1 7 (drain reserved_database)).store
reconcile_own_legs-Inv_example =
    reconcile_own_legs-Inv filled 1 7 (drain reserved_database) (omega arith) reserved-Inv

reserved_legs : (x : Leg) × (y : Leg) × (closed_legs reserved_database 1 ≡ some (x, y))
unfolding closed_legs
reserved_legs = (_, _, refl)

recover_crash_gaps-settles_example :
    in_flight (recover_crash_gaps 1 7 (drain reserved_database)).store 1 ≡ false
recover_crash_gaps-settles_example =
    recover_crash_gaps-settles 1 7 attempt (drain reserved_database) (omega arith) reserved-Inv
      (record { found = refl; gap = refl; legs = reserved_legs; task = (_, refl) })

abbrev pub both_filled : LiveAttemptDispatch
both_filled = record {
  spot_leg = answer spot (some "FILLED");
  perp_leg = answer perp (some "FILLED");
  record_payload = "";
  rate_limited = false;
}

dispatch_live-Inv_example :
    (s' : Store) × (signal : Option Signal) × (dispatch_live 1 1 open_task both_filled 7
        reserved_database
      ≡ ok (s', signal))
    × Inv s'
dispatch_live-Inv_example =
    dispatch_live-Inv 1 1 open_task both_filled 7 reserved_database (omega arith)
      (λ a found. cc found) reserved-Inv

abbrev limited_attempt : Attempt
limited_attempt = record attempt { rate_limited = true }

abbrev limited_database : Store
limited_database = record reserved_database { attempts = limited_attempt ∷ [] }

settle_drained-uncounted_example :
    AreCountsKept limited_database.tasks
      (settle_drained 1 7 limited_attempt (drain limited_database)).store.tasks
settle_drained-uncounted_example =
    settle_drained-uncounted 1 7 limited_attempt (drain limited_database) (omega arith) refl
