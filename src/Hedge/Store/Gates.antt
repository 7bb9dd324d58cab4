-- ===== src/Hedge/Store/Gates.antt =====
-- The writes to the settings in backend/hedge_open_tasks/store.py: the gates for opens and closes and
-- the limit on orders. A compare-and-swap writes its audit row in the same transaction.
pub mod Audit
use binance_funding_hedging.Prelude.{
  ℕ, ◌+◌, Bool, Option, none, some, List, [], ◌∷◌, if◌then◌else◌, ◌==◌,
}
use binance_funding_hedging.Hedge.Store.Rows.{
  Gate, open_side, close_side, of_gate, gate_changed, Settings, Store,
}

abbrev pub gate_value : Gate → Settings → Bool
gate_value open_side c = c.start_gate
gate_value close_side c = c.close_gate

-- SET start_gate = ? or SET close_gate = ?
abbrev pub gate_set : Gate → Bool → Settings → Settings
gate_set open_side enabled c = record c { start_gate = enabled }
gate_set close_side enabled c = record c { close_gate = enabled }

-- version = version + 1, updated_at_us = ?
abbrev pub bumped : ℕ → Settings → Settings
bumped now_us c = record c { version = c.version + 1; updated_at_us = now_us }

unfoldable pub set_start_gate : Bool → ℕ → Store → Store
set_start_gate enabled now_us s = record s {
  settings = bumped now_us (gate_set open_side enabled s.settings);
}

-- The UPDATE and the audit row of a compare-and-swap that finds its version.
abbrev pub gate_swapped : Gate → Bool → ℕ → ℕ → Store → Store
gate_swapped g enabled expected_version now_us s = record s {
  settings = bumped now_us (gate_set g enabled s.settings);
  logs =
      (record {
        id = s.next_log_id;
        task_id = of_gate g;
        ts_us = now_us;
        entry = gate_changed enabled (gate_value g s.settings) (expected_version + 1);
      })
      ∷ s.logs;
  next_log_id = s.next_log_id + 1;
}

-- `set_start_gate_cas` and `set_close_gate_cas`, which are the same code on two columns: none where
-- the version is another.
unfoldable pub set_gate_cas : Gate → Bool → ℕ → ℕ → Store → Store × Option Settings
set_gate_cas g enabled expected_version now_us s =
    if s.settings.version == expected_version
    then (
      gate_swapped g enabled expected_version now_us s,
      some (bumped now_us (gate_set g enabled s.settings)),
    )
    else (s, none)

unfoldable pub set_rate_limit_order : Option ℕ → ℕ → Store → Store
set_rate_limit_order limit now_us s = record s {
  settings = bumped now_us (record s.settings { rate_limit_order = limit });
}

-- A write to the settings.
pub data SettingsWrite : Type 0 where
  swap : Gate → Bool → ℕ → ℕ → SettingsWrite
  overwrite : Bool → ℕ → SettingsWrite
  limit : Option ℕ → ℕ → SettingsWrite

unfoldable pub write_settings : SettingsWrite → Store → Store
unfolding set_gate_cas set_start_gate set_rate_limit_order
write_settings (swap g enabled version now_us) s = (set_gate_cas g enabled version now_us s).0
write_settings (overwrite enabled now_us) s = set_start_gate enabled now_us s
write_settings (limit n now_us) s = set_rate_limit_order n now_us s

-- Writes in the order in which they take the lock.
unfoldable pub write_all : List SettingsWrite → Store → Store
unfolding write_settings
write_all [] s = s
write_all (w ∷ ws) s = write_all ws (write_settings w s)
