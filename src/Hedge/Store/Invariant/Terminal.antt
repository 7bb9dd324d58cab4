-- ===== src/Hedge/Store/Invariant/Terminal.antt =====
-- The operations that write a status, at a task that has come to its end.
use binance_funding_hedging.Prelude.{
  ℕ, ◌≡◌, ◌⊎◌, inl, inr, refl, Bool, false, Option, some, String, arith, All-map, ◌&&◌, Bool-cases,
  update_where-none, update_where, List, [], ◌∷◌, true, find?, ap, ◌∙◌, ◌==◌, any,
}
use binance_funding_hedging.Hedge.Vocabulary.{done, stopped, deleted, PauseReason, StopReason}
use binance_funding_hedging.Hedge.Store.Rows.{Task, Store}
use binance_funding_hedging.Hedge.Store.Tasks.{
  has_id, get_task, update_task, write_task, stop_task_fatal, pause_task, resume_paused_task,
  arm_prepared_close_task,
}
use binance_funding_hedging.Hedge.Store.Invariant.{Inv, get_task-only}
use binance_funding_hedging.Hedge.Store.Invariant.Prepare.{has_id-eq}

missed :
    (k : ℕ) (hit : Task → Bool) (t u : Task)
    → hit t ≡ false
    → (u.id ≡ k → u ≡ t)
    → (has_id k u && hit u) ≡ false
missed k hit t u h only = elim (Bool-cases (has_id k u)) [
  | inl own ↦ rw (own, only (has_id-eq k u own)) h
  | inr other ↦ rw other refl
]

pub update_task-none :
    (k : ℕ) (hit : Task → Bool) (f : Task → Task) (s : Store) (t : Task)
    → Inv s
    → get_task s k ≡ some t
    → hit t ≡ false
    → update_task k hit f s ≡ (s, false)
unfolding update_task write_task
update_task-none k hit f s t h found miss =
    let (same, nothing) =
      update_where-none (λ u. has_id k u && hit u) f s.tasks
        (All-map (λ u. u.id ≡ k → u ≡ t) (λ u. (has_id k u && hit u) ≡ false) s.tasks
          (λ u only. missed k hit t u miss only) (get_task-only k s.tasks t h.keyed found)) in
    rw (same, nothing) refl

find?-written :
    (k : ℕ) (hit : Task → Bool) (f : Task → Task) (ts : List Task) (t : Task)
    → ((u : Task) → (f u).id ≡ u.id)
    → find? (has_id k) ts ≡ some t
    → hit t ≡ true
    → find? (has_id k) (update_where (λ u. has_id k u && hit u) f ts) ≡ some (f t)
find?-written k hit f [] t same found h = cc found
find?-written k hit f (x ∷ xs) t same found h = elim (Bool-cases (has_id k x)) [
  | inl own ↦
      let first : x ≡ t = ground arith in
      let hit_x : hit x ≡ true = ap hit first ∙ h in
      let kept : has_id k (f x) ≡ true = ap (λ i. i == k) (same x) ∙ own in
      rw (own, hit_x, kept) (ap (λ u. some (f u)) first)
  | inr other ↦
      let rest = find?-written k hit f xs t same (ground arith) h in rw (other, other) rest
]

any-written :
    (k : ℕ) (hit : Task → Bool) (ts : List Task) (t : Task)
    → find? (has_id k) ts ≡ some t
    → hit t ≡ true
    → any (λ u. has_id k u && hit u) ts ≡ true
any-written k hit [] t found h = cc found
any-written k hit (x ∷ xs) t found h = elim (Bool-cases (has_id k x)) [
  | inl own ↦
      let first : x ≡ t = ground arith in
      let hit_x : hit x ≡ true = ap hit first ∙ h in rw (own, hit_x) refl
  | inr other ↦ let rest = any-written k hit xs t (ground arith) h in rw (other, rest) refl
]

-- An UPDATE whose predicate holds at the row of the id leaves there what the function writes.
pub update_task-row :
    (k : ℕ) (hit : Task → Bool) (f : Task → Task) (s : Store) (t : Task)
    → ((u : Task) → (f u).id ≡ u.id)
    → get_task s k ≡ some t
    → hit t ≡ true
    → ((update_task k hit f s).1 ≡ true) × (get_task (update_task k hit f s).0 k ≡ some (f t))
unfolding update_task write_task
update_task-row k hit f s t same found h =
    (any-written k hit s.tasks t found h, find?-written k hit f s.tasks t same found h)

-- A task that is done, stopped or deleted is not stopped, paused, resumed or armed any more: each of
-- these operations changes nothing and says so.
pub stop_task_fatal-terminal :
    (k now : ℕ) (s : Store) (t : Task)
    → Inv s
    → get_task s k ≡ some t
    → (t.status ≡ done) ⊎ ((t.status ≡ stopped) ⊎ (t.status ≡ deleted))
    → ((r : StopReason) → stop_task_fatal k r now s ≡ (s, false))
      × ((r : PauseReason) (zh : String) → pause_task k r zh now s ≡ (s, false))
      × (resume_paused_task k now s ≡ (s, false))
      × ((q : String) (side snapshot : Option String)
          → arm_prepared_close_task k q side snapshot now s ≡ (s, false))
unfolding stop_task_fatal pause_task resume_paused_task arm_prepared_close_task
stop_task_fatal-terminal k now s t h found ended = (
  λ r. update_task-none k _ _ s t h found (ground arith),
  λ r zh. update_task-none k _ _ s t h found (ground arith),
  update_task-none k _ _ s t h found (ground arith),
  λ q side snapshot. update_task-none k _ _ s t h found (ground arith),
)
