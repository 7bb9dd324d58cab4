-- ===== src/Tests/Services.antt =====
-- Runs of the writes of the gates, of the creation of a task and of the start of a smooth close.
use binance_funding_hedging.Prelude.{
  ℕ, ◌≡◌, true, false, none, some, [], ◌∷◌, refl, arith, any, is_some, ◌&&◌, List, String,
  if◌then◌else◌,
}
use binance_funding_hedging.Hedge.Vocabulary.{
  running, paused, smooth, close_task, awaiting_manual_start,
}
use binance_funding_hedging.Hedge.Store.Rows.{open_side, close_side, Task, Store}
use binance_funding_hedging.Hedge.Store.Tasks.{has_id}
use binance_funding_hedging.Hedge.Store.Prepare.{prepare_attempt}
use binance_funding_hedging.Hedge.Store.Gates.{
  gate_value, SettingsWrite, swap, limit, set_gate_cas, write_all, bumped, gate_set,
}
use binance_funding_hedging.Hedge.Store.Gates.Audit.{
  IsAudited, audited, IsChained, set_gate_cas-once, write_all-IsAudited,
}
use binance_funding_hedging.Hedge.Store.Creation.{list_eligible_tasks}
use binance_funding_hedging.Hedge.Store.Creation.Eligible.{passes, list_eligible_tasks-prepare}
use binance_funding_hedging.Hedge.Store.Invariant.{Inv}
use binance_funding_hedging.Hedge.Service.{
  Field, null, boolean, whole, members, gate_keys, put_gate, Preparation, ready, start_smooth_close,
}
use binance_funding_hedging.Hedge.Service.Gates.{IsConfirmed, put_gate-IsConfirmed}
use binance_funding_hedging.Hedge.Service.Start.{start_smooth_close-gated}
use binance_funding_hedging.Tests.Database.{settings, task, database, plan}
use binance_funding_hedging.Prelude.Texts.{mem}
use text.Mathlib.Text.{◌==◌ as str_eq}

list_eligible_tasks-prepare_example :
    is_some (prepare_attempt 1 plan 9 5 database).1
    ≡ any (λ t. has_id 1 t && passes plan t) (list_eligible_tasks database)
list_eligible_tasks-prepare_example = list_eligible_tasks-prepare 1 plan 9 5 database (tt, tt)

abbrev writes : List SettingsWrite
writes =
    swap open_side true 1 5
    ∷ swap close_side false 1 6
    ∷ limit (some 3) 7
    ∷ swap close_side false 3 8
    ∷ []

set_gate_cas-once_example :
    let after = write_all writes (set_gate_cas open_side true 1 4 database).0 in
    set_gate_cas close_side false 1 9 after ≡ (after, none)
unfolding set_gate_cas
set_gate_cas-once_example =
    set_gate_cas-once open_side close_side true false 1 4 9 writes database
      (bumped 4 (gate_set open_side true settings)) refl

database-IsAudited : IsAudited (λ g. gate_value g settings) database
unfolding audited IsChained
database-IsAudited = record { value = λ g. refl; chain = λ g. tt }

write_all-IsAudited_example : IsAudited (λ g. gate_value g settings) (write_all writes database)
write_all-IsAudited_example =
    write_all-IsAudited (λ g. gate_value g settings) writes database (tt, (tt, (tt, (tt, tt))))
      database-IsAudited

abbrev gate_body : String → Field
gate_body key =
    if str_eq key "enabled"
    then boolean true
    else if str_eq key "confirm"
    then boolean true
    else if str_eq key "version"
    then whole 1
    else null

put_gate-IsConfirmed_example :
    IsConfirmed open_side
      (gate_body "enabled")
      (gate_body "confirm")
      (gate_body "version")
      database
      (put_gate open_side (members gate_keys gate_body) 5 database).0
      (bumped 5 (gate_set open_side true settings))
unfolding put_gate mem
put_gate-IsConfirmed_example =
    put_gate-IsConfirmed open_side gate_keys gate_body 5 database
      (bumped 5 (gate_set open_side true settings)) refl

-- A smooth close that waits for its start, and the gates on.
abbrev closing_task : Task
closing_task = record task {
  status = paused;
  mode = smooth;
  task_type = close_task;
  q_common = none;
  pause_reason = some awaiting_manual_start;
}

abbrev closing_database : Store
closing_database = record database {
  tasks = closing_task ∷ [];
  settings = gate_set open_side true settings;
}

closing-Inv : Inv closing_database
closing-Inv = record {
  sound = (record { counts = ground arith; single = omega arith }, tt);
  keyed = (tt, tt);
}

abbrev prepares : Task → ℕ → Store → Store × Preparation
prepares t now s = (s, ready "1" (some "BOTH") none)

abbrev armed_task : Task
armed_task = record closing_task {
  status = running;
  q_common = some "1";
  position_side_mode = some "BOTH";
  pause_reason = none;
  updated_at_us = 5;
}

start_smooth_close-gated_example :
    (closing_database.settings.start_gate ≡ true)
    × (closing_database.settings.close_gate ≡ true)
    × (armed_task.status ≡ running)
unfolding start_smooth_close
start_smooth_close-gated_example =
    start_smooth_close-gated prepares closing_task closing_task armed_task 5 6 closing_database
      closing-Inv refl closing-Inv refl refl
