-- ===== src/Hedge/Store/Invariant.antt =====
-- The invariant of the database of backend/hedge_open_tasks/store.py, and what the operations on
-- single tasks do to it.
pub mod Prepare
pub mod Settle
pub mod Outcomes
pub mod Terminal
use binance_funding_hedging.Prelude.{
  ℕ, ◌+◌, ◌≡◌, ◌≤◌, Bool, true, false, List, arith, count_where, All, update_where,
  All-update_where, Option, String, refl, ◌&&◌, ap, some, [], ◌∷◌, ◌≢◌, sym, ◌∙◌, All-map,
  Bool-cases, inl, inr, find?,
}
use binance_funding_hedging.Hedge.Vocabulary.{
  Status, running, paused, done, stopped, deleted, PauseReason, StopReason,
}
use binance_funding_hedging.Hedge.Store.Rows.{Task, Attempt, Store}
use binance_funding_hedging.Hedge.Store.Counters.Laws.{IsCounted}
use binance_funding_hedging.Hedge.Store.Tasks.{
  is_open_pair, write_task, has_id, set_task_status, status_written, stop_task_fatal, pause_task,
  resume_paused_task, arm_prepared_close_task, open_smooth_gate, force_smooth_gate,
  clear_smooth_gate, update_task, in_flight,
}

-- The pairs of a task that are reserved and not settled.
abbrev pub open_pairs : ℕ → List Attempt → ℕ
open_pairs task_id attempts = count_where (is_open_pair task_id) attempts

-- A task's counters agree with its open pairs, of which there is at most one.
pub record IsSound (attempts : List Attempt) (t : Task) : Type 0 where
  pub counts : IsCounted t (open_pairs t.id attempts)
  pub single : open_pairs t.id attempts ≤ 1

-- The primary key: no two rows have the same id.
abbrev pub Keyed : List Task → Type 0
Keyed [] = Unit
Keyed (t ∷ ts) = All (λ u. u.id ≢ t.id) ts × Keyed ts

pub record Inv (s : Store) : Type 0 where
  pub sound : All (IsSound s.attempts) s.tasks
  pub keyed : Keyed s.tasks

module _ (p : Task → Bool) (f : Task → Task) (same : (t : Task) → (f t).id ≡ t.id) where
  fresh-update_where :
      (t : Task) (ts : List Task)
      → All (λ u. u.id ≢ t.id) ts
      → All (λ u. u.id ≢ t.id) (update_where p f ts)
  fresh-update_where t ts h =
      All-update_where (λ u. u.id ≢ t.id) (λ u. u.id ≢ t.id) p f ts
        (λ u ne _ e. ne (sym (same u) ∙ e)) (λ u ne _. ne) h

  fresh-written :
      (t : Task) (ts : List Task) → All (λ u. u.id ≢ t.id) ts → All (λ u. u.id ≢ (f t).id) ts
  fresh-written t ts h =
      All-map (λ u. u.id ≢ t.id) (λ u. u.id ≢ (f t).id) ts (λ u ne e. ne (e ∙ same t)) h

  pub Keyed-update_where : (ts : List Task) → Keyed ts → Keyed (update_where p f ts)
  Keyed-update_where [] h = h
  Keyed-update_where (t ∷ ts) h =
      let rest = Keyed-update_where ts h.1 in
      let others = fresh-update_where t ts h.0 in
      elim (Bool-cases (p t)) [
        | inl e ↦ rw e (fresh-written t (update_where p f ts) others, rest)
        | inr e ↦ rw e (others, rest)
      ]

-- The row that a read by id gives is the only one of that id.
pub get_task-only :
    (k : ℕ) (ts : List Task) (t : Task)
    → Keyed ts
    → find? (has_id k) ts ≡ some t
    → All (λ u. u.id ≡ k → u ≡ t) ts
get_task-only k [] t h e = h
get_task-only k (x ∷ xs) t h e = elim (Bool-cases (has_id k x)) [
  | inl own ↦
      let first : x ≡ t = ground arith in
      let id_of : x.id ≡ k = ground arith in
      (
        λ _. first,
        All-map (λ u. u.id ≢ x.id) (λ u. u.id ≡ k → u ≡ t) xs
            (λ u ne q. elim (ne (q ∙ sym id_of)) [ ]) h.0,
      )
  | inr other ↦ (λ q. ground arith, get_task-only k xs t h.1 (ground arith))
]

-- A write to a task that leaves its id and its counters alone.
pub record KeepsCounters (f : Task → Task) : Type 0 where
  pub kept :
      (t : Task)
      → ((f t).id ≡ t.id)
        × ((f t).accepted_pair_count ≡ t.accepted_pair_count)
        × ((f t).success_count ≡ t.success_count)
        × ((f t).fail_count ≡ t.fail_count)
        × ((f t).consecutive_submission_failures ≡ t.consecutive_submission_failures)
        × ((f t).scheduled_attempt_count ≡ t.scheduled_attempt_count)
        × ((f t).target_n ≡ t.target_n)

IsCounted-as :
    (t u : Task) (n m : ℕ)
    → m ≡ n
    → u.accepted_pair_count ≡ t.accepted_pair_count
    → u.success_count ≡ t.success_count
    → u.fail_count ≡ t.fail_count
    → u.consecutive_submission_failures ≡ t.consecutive_submission_failures
    → u.scheduled_attempt_count ≡ t.scheduled_attempt_count
    → u.target_n ≡ t.target_n
    → IsCounted t n
    → IsCounted u m
IsCounted-as t u n m e a s f c k g h = ground arith

KeepsCounters-IsSound :
    (f : Task → Task) (attempts : List Attempt) (t : Task)
    → KeepsCounters f
    → IsSound attempts t
    → IsSound attempts (f t)
KeepsCounters-IsSound f attempts t k h =
    let (i, a, s, e, c, n, m) = k.kept t in
    let same : open_pairs (f t).id attempts ≡ open_pairs t.id attempts =
      ap (λ x. open_pairs x attempts) i in
    record {
      counts =
          IsCounted-as t (f t) (open_pairs t.id attempts) (open_pairs (f t).id attempts) same a s e
            c n m h.counts;
      single = omega (arith, same, h.single);
    }

pub write_task-Inv :
    (task_id : ℕ) (hit : Task → Bool) (f : Task → Task) (s : Store)
    → KeepsCounters f
    → Inv s
    → Inv (write_task task_id hit f s)
unfolding write_task
write_task-Inv task_id hit f s k h = record {
  sound =
      All-update_where (IsSound s.attempts) (IsSound s.attempts) (λ t. has_id task_id t && hit t) f
        s.tasks (λ t e _. KeepsCounters-IsSound f s.attempts t k e) (λ t e _. e) h.sound;
  keyed = Keyed-update_where (λ t. has_id task_id t && hit t) f (λ t. (k.kept t).0) s.tasks h.keyed;
}

status_written-KeepsCounters : (st : Status) (now : ℕ) → KeepsCounters (status_written st now)
unfolding status_written
status_written-KeepsCounters running now = record {
  kept = λ t. (refl, refl, refl, refl, refl, refl, refl);
}
status_written-KeepsCounters paused now = record {
  kept = λ t. (refl, refl, refl, refl, refl, refl, refl);
}
status_written-KeepsCounters done now = record {
  kept = λ t. (refl, refl, refl, refl, refl, refl, refl);
}
status_written-KeepsCounters stopped now = record {
  kept = λ t. (refl, refl, refl, refl, refl, refl, refl);
}
status_written-KeepsCounters deleted now = record {
  kept = λ t. (refl, refl, refl, refl, refl, refl, refl);
}

-- A change of a task's status, a fatal stop, a pause and a resume keep the invariant of the database.
pub set_task_status-Inv :
    (s : Store) (task_id now : ℕ)
    → Inv s
    → ((st : Status) → Inv (set_task_status task_id st now s).0)
      × ((r : StopReason) → Inv (stop_task_fatal task_id r now s).0)
      × ((r : PauseReason) (zh : String) → Inv (pause_task task_id r zh now s).0)
      × Inv (resume_paused_task task_id now s).0
unfolding set_task_status stop_task_fatal pause_task resume_paused_task update_task
set_task_status-Inv s task_id now h = (
  λ st. write_task-Inv task_id _ (status_written st now) s (status_written-KeepsCounters st now) h,
  λ r.
      write_task-Inv task_id _ _ s
        (record { kept = λ t. (refl, refl, refl, refl, refl, refl, refl) }) h,
  λ r zh.
      write_task-Inv task_id _ _ s
        (record { kept = λ t. (refl, refl, refl, refl, refl, refl, refl) }) h,
  write_task-Inv task_id _ _ s (record { kept = λ t. (refl, refl, refl, refl, refl, refl, refl) })
      h,
)
