-- ===== src/Hedge/Store/Cycles.antt =====
-- The position cycles of backend/hedge_open_tasks/store.py.
use binance_funding_hedging.Prelude.{
  ℕ, Bool, not, Option, none, some, List, [], ◌∷◌, String, if◌then◌else◌, leb, ◌==◌, ◌&&◌,
  update_where, is_none,
}
use binance_funding_hedging.Hedge.Vocabulary.{Direction, is_forward}
use binance_funding_hedging.Hedge.Store.Rows.{Cycle, Store}
use text.Mathlib.Text.{◌==◌ as str_eq}

abbrev same_direction : Direction → Direction → Bool
same_direction d e = if is_forward d then is_forward e else not (is_forward e)

-- The newest of the open cycles of a symbol and direction.
abbrev newer : Option Cycle → Cycle → Option Cycle
newer none c = some c
newer (some b) c = if leb c.opened_at_us b.opened_at_us then some b else some c

unfoldable pub active_cycle_from : Option Cycle → String → Direction → List Cycle → Option Cycle
active_cycle_from best symbol direction [] = best
active_cycle_from best symbol direction (c ∷ cs) =
    active_cycle_from
      (if str_eq c.symbol symbol && same_direction c.direction direction && is_none c.closed_at_us
        then newer best c
        else best)
      symbol direction cs

-- `_get_active_cycle_locked`
unfoldable pub get_active_cycle : String → Direction → Store → Option Cycle
unfolding active_cycle_from
get_active_cycle symbol direction s = active_cycle_from none symbol direction s.cycles

-- The row of `_create_cycle_locked`; the id is the one that uuid4 draws.
abbrev pub new_cycle : ℕ → String → Direction → ℕ → ℕ → Cycle
new_cycle cycle_id symbol direction opened_at_us task_id = record {
  id = cycle_id;
  symbol = symbol;
  direction = direction;
  opened_at_us = opened_at_us;
  closed_at_us = none;
  close_reason = none;
  first_task_id = task_id;
  last_task_id = task_id;
}

-- closed_at_us is written once.
unfoldable pub close_cycle : ℕ → ℕ → String → Store → Store
close_cycle cycle_id closed_at_us reason s = record s {
  cycles =
      update_where (λ c. c.id == cycle_id && is_none c.closed_at_us)
        (λ c. record c { closed_at_us = some closed_at_us; close_reason = some reason }) s.cycles;
}
