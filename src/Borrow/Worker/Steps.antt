-- ===== src/Borrow/Worker/Steps.antt =====
-- Each transaction of the borrow tasks keeps the invariant, and so does every run.
use binance_funding_hedging.Prelude.{
  ℕ, ◌+◌, ◌≡◌, ◌≢◌, ◌<◌, ◌≤◌, sym, inl, inr, refl, Bool, true, false, none, some, List, [], ◌∷◌,
  ◌++◌, String, arith, Option, Option-cases, find?, update_where, is_some, ◌==◌, All,
  All-update_where, All-map, All-zip, All-append, HasKeys-update_where, HasKeys-append, find?-only,
  All-true, All-select, find?-holds, find?-All,
}
use mathlib.Core.Path.{subst}
use binance_funding_hedging.Borrow.Rows.{
  BorrowTask, BorrowAttempt, BorrowSettings, BorrowStatus, ExecutorResult,
}
use binance_funding_hedging.Borrow.Settings.{set_execution_enabled, update_settings}
use binance_funding_hedging.Borrow.Attempts.{
  is_task, find_task, marked, insert_row, insert_pending_attempt, resolve_attempt, coalesce_attempt,
  record_attempt, coalesced_into, result_written, resolve_status, refreshed,
}
use binance_funding_hedging.Borrow.Tasks.{
  last_created, created_task, create_task, status_set, set_task_status, is_version, edited,
  edit_task, clear_attempt_logs, is_pending, orphaned, released, recover,
}
use binance_funding_hedging.Borrow.Gates.{insert_pending_attempt-cases}
use binance_funding_hedging.Borrow.Worker.{
  Running, Step, created, status_written, edit_written, logs_cleared, switched, configured, sent,
  answer_written, given_up, restarted, Reach, here, next,
}
use binance_funding_hedging.Borrow.Worker.Safety.{IsBounded, IsMarkedBy, Inv, update_where-Inv}

created-Inv :
    (w : Running) (task_id : ℕ) (asset amount : String) (target now : ℕ)
    → All (λ t. t.id ≢ task_id) w.store.tasks
    → All (λ a. a.task_id ≢ task_id) w.store.attempts
    → 1 ≤ target
    → Inv w
    → Inv (record w { store = create_task task_id asset amount target now w.store })
unfolding create_task
created-Inv w task_id asset amount target now fresh unused positive h =
    let row = created_task task_id asset amount target (last_created w.store.tasks + 1) now in
    record {
      bounded =
          All-append IsBounded w.store.tasks row h.bounded (ground arith, λ m e. ground arith);
      keyed = HasKeys-append (λ (t : BorrowTask). t.id) row w.store.tasks h.keyed fresh;
      numbered = h.numbered;
      owned = λ m e.
          All-map (λ a. IsMarkedBy m w.store.tasks a × (a.task_id ≢ task_id))
            (IsMarkedBy m (w.store.tasks ++ row ∷ [])) w.store.attempts
            (λ a g q.
              All-append (λ t. t.id ≡ a.task_id → t.unresolved_attempt_id ≡ some m) w.store.tasks
                row (g.0 q) (λ same. absurd (g.1 (sym same))))
            (All-zip (IsMarkedBy m w.store.tasks) (λ a. a.task_id ≢ task_id) w.store.attempts
              (h.owned m e) unused);
    }

status_written-Inv :
    (w : Running) (task_id : ℕ) (status : BorrowStatus) (live : Option Bool) (now : ℕ)
    → Inv w
    → Inv (record w { store = set_task_status task_id status live now w.store })
unfolding set_task_status
status_written-Inv w task_id status live now h =
    update_where-Inv (is_task task_id) (status_set status live now) (λ t. refl) (λ t. refl) w h
      (All-true _ w.store.tasks (λ t e b. b))

edit_written-Inv :
    (w : Running) (task_id : ℕ) (amount : String) (target expected now : ℕ)
    → All (λ t. is_version task_id expected t ≡ true → t.success_count < target) w.store.tasks
    → Inv w
    → Inv (record w { store = (edit_task task_id amount target expected now w.store).0 })
unfolding edit_task
edit_written-Inv w task_id amount target expected now room h =
    update_where-Inv (is_version task_id expected) (edited amount target now) (λ t. refl)
      (λ t. refl) w h
      (All-map (λ t. is_version task_id expected t ≡ true → t.success_count < target) _
        w.store.tasks (λ t less e b. (ground (arith, less e), λ m q. less e)) room)

logs_cleared-Inv : (w : Running) → Inv w → Inv (record w { store = clear_attempt_logs w.store })
unfolding clear_attempt_logs
logs_cleared-Inv w h = record {
  bounded = h.bounded;
  keyed = h.keyed;
  numbered = All-select _ _ w.store.attempts h.numbered;
  owned = λ m e. All-select _ _ w.store.attempts (h.owned m e);
}

switched-Inv :
    (w : Running) (enabled : Bool) (now : ℕ)
    → Inv w
    → Inv (record w { store = set_execution_enabled enabled now w.store })
unfolding set_execution_enabled
switched-Inv w true now h = record {
  bounded = h.bounded;
  keyed = h.keyed;
  numbered = h.numbered;
  owned = h.owned;
}
switched-Inv w false now h = record {
  bounded = h.bounded;
  keyed = h.keyed;
  numbered = h.numbered;
  owned = h.owned;
}

configured-Inv :
    (w : Running) (seconds : String) (interval now : ℕ)
    → Inv w
    → Inv (record w { store = update_settings seconds interval now w.store })
unfolding update_settings
configured-Inv w seconds interval now h = record {
  bounded = h.bounded;
  keyed = h.keyed;
  numbered = h.numbered;
  owned = h.owned;
}

given_up-Inv : (w : Running) → Inv w → Inv (record w { in_flight = none })
given_up-Inv w h = record {
  bounded = h.bounded;
  keyed = h.keyed;
  numbered = h.numbered;
  owned = λ m e. absurd (ground arith);
}

restarted-Inv :
    (w : Running) (now : ℕ) → Inv w → Inv (record { store = recover now w.store; in_flight = none })
unfolding recover
restarted-Inv w now h = record {
  bounded =
      All-update_where IsBounded IsBounded (λ (t : BorrowTask). is_some t.unresolved_attempt_id)
        released w.store.tasks (λ t b _. (b.0, λ m e. absurd (ground arith))) (λ t b _. b)
        h.bounded;
  keyed =
      HasKeys-update_where (λ (t : BorrowTask). t.id) _ released (λ t. refl) w.store.tasks h.keyed;
  numbered =
      All-update_where (λ (a : BorrowAttempt). a.id < w.store.next_attempt_id) _ is_pending
        (orphaned now) w.store.attempts (λ a b _. b) (λ a b _. b) h.numbered;
  owned = λ m e. absurd (ground arith);
}

sent-Inv :
    (w : Running) (task_id : ℕ) (asset amount : String) (at dispatched cursor : ℕ) (live : Bool)
    → Inv w
    → Inv (record {
      store = (insert_pending_attempt task_id asset amount at dispatched cursor live w.store).0;
      in_flight = (insert_pending_attempt task_id asset amount at dispatched cursor live w.store).1;
    })
unfolding insert_row
sent-Inv w task_id asset amount at dispatched cursor live h =
    elim (insert_pending_attempt-cases task_id asset amount at dispatched cursor live w.store) [
      | inl e ↦ rw e (given_up-Inv w h)
      | inr (t, found, go, e) ↦
          let number = w.store.next_attempt_id in
          let mark = marked number dispatched in
          let room : t.success_count < t.success_target = ground arith in
          rw e (record {
            bounded =
                All-update_where (λ u. (u.id ≡ task_id → u ≡ t) × IsBounded u) IsBounded
                  (is_task task_id) mark w.store.tasks
                  (λ u g own. (
                    g.1.0,
                    λ m q.
                        subst (λ y. y.success_count < y.success_target) (sym (g.0 (ground arith)))
                          room,
                  ))
                  (λ u g _. g.1)
                  (All-zip (λ u. u.id ≡ task_id → u ≡ t) IsBounded w.store.tasks
                    (find?-only (λ (u : BorrowTask). u.id) task_id w.store.tasks t h.keyed found)
                    h.bounded);
            keyed =
                HasKeys-update_where (λ (u : BorrowTask). u.id) (is_task task_id) mark (λ u. refl)
                  w.store.tasks h.keyed;
            numbered = (
              omega arith,
              All-map (λ (a : BorrowAttempt). a.id < number) (λ a. a.id < number + 1)
                  w.store.attempts (λ a less. omega arith) h.numbered,
            );
            owned = λ m q. (
              λ _.
                  All-update_where (λ (u : BorrowTask). IsBounded u) _ (is_task task_id) mark
                    w.store.tasks (λ u b own same. q) (λ u b other same. absurd (ground arith))
                    h.bounded,
              All-map (λ (a : BorrowAttempt). a.id < number) _ w.store.attempts
                  (λ a less q2. absurd (ground arith)) h.numbered,
            );
          })
    ]

settled-Inv :
    (w : Running) (k : ℕ) (f : BorrowTask → BorrowTask) (xs : List BorrowAttempt)
    → (after : BorrowSettings) → ((t : BorrowTask) → (f t).id ≡ t.id)
    → Inv w
    → All (λ a. a.id < w.store.next_attempt_id) xs
    → All (λ t. is_task k t ≡ true → IsBounded t → IsBounded (f t)) w.store.tasks
    → Inv (record {
      store = record w.store {
        tasks = update_where (is_task k) f w.store.tasks;
        attempts = xs;
        settings = after;
      };
      in_flight = none;
    })
settled-Inv w k f xs after same h low ok = record {
  bounded =
      All-update_where (λ t. (is_task k t ≡ true → IsBounded t → IsBounded (f t)) × IsBounded t)
        IsBounded (is_task k) f w.store.tasks (λ t g e. g.0 e g.1) (λ t g _. g.1)
        (All-zip _ IsBounded w.store.tasks ok h.bounded);
  keyed = HasKeys-update_where (λ (t : BorrowTask). t.id) (is_task k) f same w.store.tasks h.keyed;
  numbered = low;
  owned = λ m e. absurd (ground arith);
}

-- A result counts at most the one success that the marker kept room for.
result_written-IsBounded :
    (r : ExecutorResult) (finished m : ℕ) (t : BorrowTask)
    → t.unresolved_attempt_id ≡ some m
    → IsBounded t
    → IsBounded (result_written r finished t)
unfolding result_written resolve_status
result_written-IsBounded r finished m t mark b =
    let room = b.1 m mark in (ground arith, λ n e. absurd (ground arith))

answered-Inv :
    (w : Running) (attempt_id : ℕ) (r : ExecutorResult) (finished : ℕ)
    → w.in_flight ≡ some attempt_id
    → Inv w
    → Inv (record { store = (resolve_attempt attempt_id r finished w.store).0; in_flight = none })
unfolding resolve_attempt coalesce_attempt record_attempt
answered-Inv w attempt_id r finished waiting h =
    elim (Option-cases (find? (λ (a : BorrowAttempt). a.id == attempt_id) w.store.attempts)) [
      | inl e ↦ rw (resolve_attempt, e) (given_up-Inv w h)
      | inr (a, e) ↦
          let kept : Option ℕ = elim (find_task w.store a.task_id) [
            | none ↦ none
            | some t ↦ coalesced_into r t attempt_id w.store.attempts
          ] in
          let marks =
            find?-All (IsMarkedBy attempt_id w.store.tasks) _ w.store.attempts a
              (h.owned attempt_id waiting) e
              (let own =
                  find?-holds (λ (b : BorrowAttempt). b.id == attempt_id) w.store.attempts a e in
                ground arith) in
          elim (Option-cases kept) [
            | inl g ↦
                rw (resolve_attempt, e, g)
                  (settled-Inv w a.task_id (result_written r finished) _ _ (λ t. refl) h
                    (All-update_where _ _ _ _ w.store.attempts (λ b g _. g) (λ b g _. g) h.numbered)
                    (All-map _ _ w.store.tasks
                      (λ t mark own b.
                        result_written-IsBounded r finished attempt_id t (mark (ground arith)) b)
                      marks))
            | inr (k, g) ↦
                rw (resolve_attempt, e, g)
                  (settled-Inv w a.task_id (refreshed finished) _ _ (λ t. refl) h
                    (All-select _ _ _ (
                      All-update_where _ _ _ _ w.store.attempts (λ b g _. g) (λ b g _. g)
                        h.numbered))
                    (All-true _ w.store.tasks (λ t own b. (b.0, λ n q. absurd (ground arith)))))
          ]
    ]

Step-Inv : {w v : Running} → Step w v → Inv w → Inv v
Step-Inv (created w k asset amount target now fresh unused positive) h =
    created-Inv w k asset amount target now fresh unused positive h
Step-Inv (status_written w k status live now) h = status_written-Inv w k status live now h
Step-Inv (edit_written w k amount target expected now room) h =
    edit_written-Inv w k amount target expected now room h
Step-Inv (logs_cleared w) h = logs_cleared-Inv w h
Step-Inv (switched w enabled now) h = switched-Inv w enabled now h
Step-Inv (configured w seconds interval now) h = configured-Inv w seconds interval now h
Step-Inv (sent w k asset amount at dispatched cursor live idle) h =
    sent-Inv w k asset amount at dispatched cursor live h
Step-Inv (answer_written w attempt_id r finished waiting) h =
    answered-Inv w attempt_id r finished waiting h
Step-Inv (given_up w) h = given_up-Inv w h
Step-Inv (restarted w now) h = restarted-Inv w now h

-- Whatever transactions the handlers, the worker and a restart make, in any order and also while an
-- answer is awaited, from a database that keeps the invariant: no task ever counts more successes
-- than its target, a task with an attempt in flight has room for one more, the ids stay unique, and
-- the awaited attempt is the one that its task's marker names.
pub Reach-Inv : {w v : Running} → Inv w → Reach w v → Inv v
Reach-Inv h here = h
Reach-Inv h (next r st) = Step-Inv st (Reach-Inv h r)
