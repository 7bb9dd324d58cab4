-- ===== src/Hedge/Worker/Checks/Kept.antt =====
-- What the checks of a pair leave alone: they write logs, pauses and fatal stops only.
use binance_funding_hedging.Prelude.{
  ℕ, ◌-◌, Bool, not, Option, none, some, String, Bool-cases, Option-cases, inl, inr, ◌&&◌, ltb,
}
use binance_funding_hedging.Decimal.{Decimal, sub, mul, of_int, le_decimal}
use binance_funding_hedging.Hedge.Vocabulary.{
  PauseReason, StopReason, PositionMode, is_smooth, is_close, is_forward,
}
use binance_funding_hedging.Hedge.Preflight.Snapshot.{SnapshotRecord}
use binance_funding_hedging.Hedge.Preflight.Fresh.{Fresh, fresh_incomplete, fresh_fatal, fresh_ok}
use binance_funding_hedging.Hedge.Store.Rows.{
  Task, Store, LogEntry, task_event, task_stopped, close_transfer,
}
use binance_funding_hedging.Hedge.Store.Tasks.{pause_task, stop_task_fatal}
use binance_funding_hedging.Hedge.Store.Settle.{append_log}
use binance_funding_hedging.Hedge.Worker.Dispatch.{pause_task_local}
use binance_funding_hedging.Hedge.Worker.Close.{
  Funds, has_at_least, transfer_missing, ensure_close_spot_balance, check_close_funds,
  close_um_position_error, close_reverse_usdt_error, run_close_preparation,
  stop_task_fatal_preflight, or_asked, log_close_transfer, record_preflight_incomplete,
}
use binance_funding_hedging.Hedge.Worker.Checks.{
  Words, Reads, Release, Quantities, task_fresh, fresh_pair, quantities_of, open_quantities,
  route_changed, leverage_missing, send_qty, buy_price, check_money, check_pair,
}

-- A statement about the database that logs, pauses and fatal stops keep.
pub record IsKept (P : Store → Type 0) : Type 0 where
  pub log : (k now : ℕ) (e : Option LogEntry) (s : Store) → P s → P (append_log k now e s)
  pub pause :
      (k : ℕ) (r : PauseReason) (zh : String) (now : ℕ) (s : Store)
      → P s
      → P (pause_task k r zh now s).0
  pub stop : (k : ℕ) (r : StopReason) (now : ℕ) (s : Store) → P s → P (stop_task_fatal k r now s).0

module _ (P : Store → Type 0) (kept : IsKept P) where
  pub pause_task_local-IsKept :
      (k : ℕ) (r : PauseReason) (zh kind : String) (now : ℕ) (s : Store)
      → P s
      → P (pause_task_local k r zh kind now s)
  unfolding pause_task_local
  pause_task_local-IsKept k r zh kind now s h =
      kept.log k now (some (task_event kind r)) (pause_task k r zh now s).0
        (kept.pause k r zh now s h)

  stop_task_fatal_preflight-IsKept :
      (k : ℕ) (r : StopReason) (now : ℕ) (s : Store) → P s → P (stop_task_fatal_preflight k r now s)
  stop_task_fatal_preflight-IsKept k r now s h =
      kept.log k now (some (task_stopped (some r))) (stop_task_fatal k r now s).0
        (kept.stop k r now s h)

  logged :
      (k : ℕ) (action : String) (d : Decimal) (now : ℕ) (s : Store)
      → P s
      → P (log_close_transfer k action d now s)
  logged k action d now s = kept.log k now (some (close_transfer action d)) s

  transfer_missing-IsKept :
      (f : Funds) (k : ℕ) (d : Decimal) (now : ℕ) (s : Store)
      → P s
      → P (transfer_missing f k d now s).0
  transfer_missing-IsKept f k d now s h =
      let started = log_close_transfer k "start" d now s in
      let begun = logged k "start" d now s h in
      elim (Bool-cases f.transferred) [
        | inl e ↦ rw e (logged k "ok" d now started begun)
        | inr e ↦ rw e (logged k "failed" d now started begun)
      ]

  ensure_close_spot_balance-IsKept :
      (f : Funds) (k : ℕ) (required : Decimal) (now : ℕ) (s : Store)
      → P s
      → P (ensure_close_spot_balance f k required now s).0
  unfolding ensure_close_spot_balance
  ensure_close_spot_balance-IsKept f k required now s h =
      elim (Bool-cases (has_at_least required f.spot_cached)) [
        | inl e ↦ rw (ensure_close_spot_balance, e) h
        | inr e ↦ elim (Option-cases f.spot_asked) [
          | inl g ↦ rw (ensure_close_spot_balance, e, g) h
          | inr (free, g) ↦ elim (Bool-cases (le_decimal required free)) [
            | inl p ↦ rw (ensure_close_spot_balance, e, g, p) h
            | inr p ↦
                elim (Bool-cases
                  (has_at_least (sub required free) (or_asked f.unified_cached f.unified_asked))) [
                    | inl q ↦
                        rw (ensure_close_spot_balance, e, g, p, q)
                          (transfer_missing-IsKept f k (sub required free) now s h)
                    | inr q ↦ rw (ensure_close_spot_balance, e, g, p, q) h
                  ]
          ]
        ]
      ]

  incomplete_logged : (k now : ℕ) (s : Store) → P s → P (record_preflight_incomplete k now s)
  incomplete_logged k now s =
      kept.log k now (some (task_event "preflight_incomplete" PauseReason.preflight_incomplete)) s

  check_close_funds-IsKept :
      (words : PauseReason → String) (f : Funds) (t : Task) (q : Decimal)
      (mode : Option PositionMode) (rec : SnapshotRecord) (now : ℕ) (s : Store)
      → P s
      → P (check_close_funds words f t q mode rec now s).0
  unfolding check_close_funds
  check_close_funds-IsKept words f t q mode rec now s h =
      let required = mul q (of_int (t.target_n - t.scheduled_attempt_count)) in
      let ensured = ensure_close_spot_balance f t.id required now s in
      let ensured_kept = ensure_close_spot_balance-IsKept f t.id required now s h in
      elim (Bool-cases (close_um_position_error f t.direction required)) [
        | inl e ↦ rw (check_close_funds, e) (pause_task_local-IsKept t.id _ _ _ now s h)
        | inr e ↦ elim (Bool-cases (is_forward t.direction)) [
          | inr d ↦ rw (check_close_funds, e, d) h
          | inl d ↦ elim (Bool-cases ensured.1) [
            | inl g ↦
                rw (check_close_funds, e, d, g)
                  (pause_task_local-IsKept t.id _ _ _ now ensured.0 ensured_kept)
            | inr g ↦ rw (check_close_funds, e, d, g) ensured_kept
          ]
        ]
      ]

  run_close_preparation-IsKept :
      (words : PauseReason → String) (f : Funds) (fresh : Fresh) (t : Task) (now : ℕ) (s : Store)
      → P s
      → P (run_close_preparation words f fresh t now s).0
  unfolding run_close_preparation
  run_close_preparation-IsKept words f fresh_incomplete t now s h = incomplete_logged t.id now s h
  run_close_preparation-IsKept words f (fresh_fatal r) t now s h =
      stop_task_fatal_preflight-IsKept t.id r now s h
  run_close_preparation-IsKept words f (fresh_ok none mode rec) t now s h =
      incomplete_logged t.id now s h
  run_close_preparation-IsKept words f (fresh_ok (some q) mode rec) t now s h =
      elim (Bool-cases (ltb t.scheduled_attempt_count t.target_n)) [
        | inl e ↦
            rw (run_close_preparation, e) (check_close_funds-IsKept words f t q mode rec now s h)
        | inr e ↦ rw (run_close_preparation, e) h
      ]

  open_quantities-IsKept :
      (w : Words) (fresh : Fresh) (t : Task) (now : ℕ) (s : Store)
      → P s
      → P (open_quantities w fresh t now s).0
  open_quantities-IsKept w fresh_incomplete t now s h = incomplete_logged t.id now s h
  open_quantities-IsKept w (fresh_fatal r) t now s h =
      stop_task_fatal_preflight-IsKept t.id r now s h
  open_quantities-IsKept w (fresh_ok q mode rec) t now s h = h

  fresh_pair-IsKept :
      (w : Words) (r : Reads) (t : Task) (now : ℕ) (s : Store) → P s → P (fresh_pair w r t now s).0
  unfolding fresh_pair
  fresh_pair-IsKept w r t now s h = elim (Option-cases (task_fresh r t)) [
    | inl e ↦ rw (fresh_pair, e) h
    | inr (fresh, e) ↦ elim (Bool-cases (is_close t.task_type)) [
      | inl c ↦
          rw (fresh_pair, e, c) (run_close_preparation-IsKept w.reason_zh r.funds fresh t now s h)
      | inr c ↦ rw (fresh_pair, e, c) (open_quantities-IsKept w fresh t now s h)
    ]
  ]

  pub quantities_of-IsKept :
      (w : Words) (r : Reads) (live : Bool) (t : Task) (now : ℕ) (s : Store)
      → P s
      → P (quantities_of w r live t now s).0
  quantities_of-IsKept w r live t now s h = elim (Bool-cases (live && not (is_smooth t.mode))) [
    | inl e ↦ rw e (fresh_pair-IsKept w r t now s h)
    | inr e ↦ rw e h
  ]

  check_money-IsKept :
      (w : Words) (r : Reads) (release : Release) (live : Bool) (t : Task) (n : Quantities)
      (now : ℕ) (s : Store)
      → P s
      → P (check_money w r release live t n now s).0
  check_money-IsKept w r release live t n now s h = elim (Option-cases (send_qty t n)) [
    | inl e ↦ rw (check_money, e) h
    | inr (qty, e) ↦ elim (Bool-cases live) [
      | inr l ↦ rw (check_money, e, l) h
      | inl l ↦ elim (Option-cases (close_reverse_usdt_error r.funds t qty (buy_price release n))) [
        | inl g ↦ rw (check_money, e, l, g) h
        | inr (reason, g) ↦
            rw (check_money, e, l, g) (pause_task_local-IsKept t.id reason _ _ now s h)
      ]
    ]
  ]

  pub check_pair-IsKept :
      (w : Words) (r : Reads) (release : Release) (live : Bool) (t : Task) (n : Quantities)
      (now : ℕ) (s : Store)
      → P s
      → P (check_pair w r release live t n now s).0
  unfolding check_pair
  check_pair-IsKept w r release live t n now s h = elim (Bool-cases (live && route_changed w t n)) [
    | inl e ↦ rw (check_pair, e) (pause_task_local-IsKept t.id _ _ _ now s h)
    | inr e ↦ elim (Bool-cases (live && leverage_missing r t)) [
      | inl g ↦ rw (check_pair, e, g) (pause_task_local-IsKept t.id _ _ _ now s h)
      | inr g ↦ rw (check_pair, e, g) (check_money-IsKept w r release live t n now s h)
    ]
  ]
