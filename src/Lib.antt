-- ===== src/Lib.antt =====
-- A model of the trading core of the funding hedging backend: the program opens and closes pairs of
-- orders, one spot and one perpetual, in opposite directions. A preflight turns the exchange's filters
-- into one quantity that both legs can send; a task reserves one pair at a time in a database, sends
-- its two orders, and settles the pair by what the exchange answered; failures in a row pause the
-- task. A worker of the task takes the exchange's answers, asks for orders that it does not know the
-- end of, and never sends one twice. Beside it a scheduler borrows, one attempt at a time, behind a
-- durable switch and a cooldown, and a flow log stores the exchange's rows and settles repaid
-- interest.
--
-- Files, and the code they model (paths from the repository's root):
--   Prelude, Prelude/*      names of the libraries, tests on numbers, tables as lists of rows
--   Decimal, Decimal/*      Python's decimal at the default context, for non-negative numbers;
--                           Decimal/Format is fmt_decimal
--   Hedge/Vocabulary        the families of constants of backend/hedge_open_tasks/domain.py
--   Hedge/Errors            HedgeError and results
--   Hedge/Codes, Codes/*    is_insufficient_funds_code, classify_exchange_code,
--                           rollup_leg_error_category; Codes/Message is the message pattern
--   Hedge/Direction         direction_to_leg_actions, evaluation_direction, decide_spot_route,
--                           spot_route_endpoint
--   Hedge/Grid, Grid/*      _decimal_units, decimal_lcm, floor_to_grid, truncate_usdt
--   Hedge/Filters           effective_market_step, _qty_bounds, min_notional, _check_common_quantity
--   Hedge/Preflight         compute_preflight, one function per gate; Preflight/Snapshot has the records,
--                           base_asset and the gate on the funds; Preflight/Fresh is
--                           _resolve_fresh_preflight
--   Hedge/Cursor            encode_cursor, decode_cursor and the two of the entries
--   Hedge/Threshold         validate_slippage_threshold_pct
--   Hedge/SmoothGate        evaluate_smooth_gate, and compute_opening_spread_pct of
--                           backend/domain/snapshot.py
--   Hedge/Attempt           leg_is_accepted, classify_attempt, build_leg_exposure,
--                           resolve_status_after_attempt
--   Hedge/Store/Rows        the tables of backend/hedge_open_tasks/store.py
--   Hedge/Store/Counters    _apply_task_counters, on the task's row
--   Hedge/Store/Tasks       the writes of a task's status, pauses, stops and smooth gate
--   Hedge/Store/Cycles      the position cycles
--   Hedge/Store/Gates       the settings: set_start_gate, set_*_gate_cas, set_rate_limit_order;
--                           Gates/Audit is what is proved
--   Hedge/Store/Creation    create_task and list_eligible_tasks; Creation/Eligible is what is proved
--   Hedge/Store/Prepare     prepare_attempt
--   Hedge/Store/Legs        the writes to single legs by dispatch and queries
--   Hedge/Store/Settle      finalize_attempt and settle_attempt_no_counters
--   Hedge/Store/Resolve     resolve_attempt
--   Hedge/Store/Invariant   the invariant of the database, over the operations above
--   Hedge/Worker/Verdicts   what one leg's answer means, of backend/hedge_open_tasks/service.py
--   Hedge/Worker/Dispatch   _dispatch_live, _dispatch_to_outcome, _mark_legs_querying, _pause_task_local
--   Hedge/Worker/Drain      _reconcile_own_legs, _recover_crash_gaps, _rate_limited_for_settlement
--   Hedge/Worker/Close      the checks of a close: its position, its funds, whether it is flat
--   Hedge/Worker/Checks     the checks of _dispatch_one_for_task before it sends a pair
--   Hedge/Worker/Pair       _dispatch_one_for_task itself, _dispatch_simulated; Pair/Sound and Gated are
--                           what is proved
--   Hedge/Worker/Wait       _wait_for_smooth_gate; Wait/Passed, Ended and Sound are what is proved
--   Hedge/Worker/Round      _worker_round and the loop of _run_task_worker; Round/Signals, Sound and
--                           Gated are what is proved
--   Hedge/Worker/Untouched, Budget, Sound, Progress, Settled, Uncounted   what is proved of them
--   Hedge/Service           put_start_gate, put_close_gate, post_start, post_pause, post_delete and
--                           _require_fillable; Service/Gates and Start are what is proved
--   Borrow/Rows             the vocabulary and the tables of backend/borrow_tasks
--   Borrow/Settings         set_execution_enabled, _apply_rate_limit and clamp_retry_after
--   Borrow/Attempts         resolve_attempt of backend/borrow_tasks/store.py; Attempts/Insert has
--                           insert_pending_attempt
--   Borrow/Choice           list_eligible_tasks, and select_next_task of the scheduler
--   Borrow/Gates, Marker, Turns   what is proved of them
--   Borrow/Validate         the validators of backend/borrow_tasks/domain.py
--   Borrow/Tasks            create_task, set_task_status, edit_task, clear_attempt_logs, recovery
--   Borrow/Service          the handlers of backend/borrow_tasks/service.py that write
--   Borrow/Worker           tick and _dispatch_one, and the transactions as a step relation; Worker/Safety
--                           is its invariant, Worker/Steps, Posted, Runs, Effects, Statuses,
--                           Bodies and Handlers what is proved
--   Ledger/Dedup, Repay     dedup_*_rows and match_interest_repay of backend/ledger_flow/domain.py
--   Ledger/Match            what is proved of the match
--   Tests/*                 concrete runs
--
-- How the state corresponds. The database is a record of tables, each a list of rows (new rows at the
-- front, the borrow tasks in the order of their creation), and the counters that give the next ids; an
-- SQL UPDATE is `update_where`, a SELECT of one row `find?`. Each operation of the store runs under
-- one lock and in one transaction, so it is a function from the database to the database and its
-- result; a rolled back call leaves the database alone. Ids are only compared and are numbers. Times
-- are arguments. A random id is an argument as well.
--
-- How the parts interact. The borrow handlers and the borrow worker write through the same
-- transactions, which may come in any order: Borrow/Worker has them as steps. The executors and the
-- exchange are parameters: a function from the leg, or from the task and the attempt, to the answer,
-- where no answer is an answer too. An exception of an executor that sends is an answer as well; an
-- exception of the query of a hedge leg is left out. The worker of a hedge task keeps its retry counts
-- and pending stamps beside the database, in one record. What other requests write while it waits or
-- between two of its rounds is a function on the database, one for each look at the market, each pair
-- and each round. The store's writes do not fail: what the code does when SQLite itself raises is left
-- out.
--
-- Decimals are non-negative, a number of units and of places: products and quotients are rounded to 28
-- significant digits, half to even, while construction and comparison are exact. Figures that the code
-- stores as texts and reads back as decimals are the decimals. An exchange message is its code points.
--
-- Fuel. `gcd` runs on one more step than its second number, which falls at each step; `digit_count` on
-- one more than the number, which a division by ten makes smaller at each step. All other recursion is
-- structural: the wait of a smooth task and the loop of a worker run over the list of looks, or of
-- rounds, that they are given. The retries of a leg's query are bounded by LEG_QUERY_MAX_RETRIES, as
-- in the code.
--
-- Not modelled: the services' threads and their pacing, HTTP and JSON (how a snapshot record is
-- written and read is a parameter, as are the operator's texts and the requests of the two orders),
-- the reads that only serve the API, the migrations of the database, fees, copies of raw responses,
-- the sums of the flow log, the market snapshot, and the frontend. NaN and infinite decimals, negative
-- filter steps beyond being unusable, and rows with a NULL where the schema forbids one are left out.
pub mod Prelude
pub mod Decimal
pub mod Hedge
pub mod Borrow
pub mod Ledger
pub mod Tests
