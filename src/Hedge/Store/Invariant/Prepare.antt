-- ===== src/Hedge/Store/Invariant/Prepare.antt =====
-- What the reservation of a pair does to the invariant of the database.
use binance_funding_hedging.Prelude.{
  ℕ, ◌+◌, ◌≡◌, true, false, List, arith, All-update_where, some, none, refl, ap, count_where-any,
  Option-cases, Bool-cases, inl, inr, not, ◌&&◌, find?, leb, ◌∷◌, All-zip, ◌≢◌, sym, ◌<◌, [], ◌⊎◌,
  ◌∙◌,
}
use binance_funding_hedging.Hedge.Vocabulary.{running}
use binance_funding_hedging.Hedge.Store.Rows.{Task, Attempt, Store}
use binance_funding_hedging.Hedge.Store.Counters.Laws.{IsCounted}
use binance_funding_hedging.Hedge.Store.Tasks.{is_open_pair, has_id, in_flight, get_task}
use binance_funding_hedging.Hedge.Store.Prepare.{
  Plan, prepare_attempt, reserve_pair, may_prepare, reserved,
}
use binance_funding_hedging.Hedge.Store.Invariant.{
  open_pairs, IsSound, Inv, Keyed-update_where, get_task-only,
}

-- The row that a read by id gives has that id.
pub has_id-eq : (k : ℕ) (t : Task) → has_id k t ≡ true → t.id ≡ k
has_id-eq k t h = ground arith

reserved-IsCounted :
    (now : ℕ) (t : Task) (n : ℕ)
    → leb t.target_n t.scheduled_attempt_count ≡ false
    → IsCounted t n
    → IsCounted (reserved now t) (n + 1)
reserved-IsCounted now t n under h = ground arith

-- A new open pair of the task `k`.
IsSound-own :
    (a : Attempt) (rest : List Attempt) (now : ℕ) (t : Task)
    → is_open_pair t.id a ≡ true
    → open_pairs t.id rest ≡ 0
    → leb t.target_n t.scheduled_attempt_count ≡ false
    → IsSound rest t
    → IsSound (a ∷ rest) (reserved now t)
IsSound-own a rest now t held zero under h =
    let one : open_pairs t.id (a ∷ rest) ≡ open_pairs t.id rest + 1 = ground arith in
    record {
      counts = rw one (reserved-IsCounted now t (open_pairs t.id rest) under h.counts);
      single = omega (arith, one, zero);
    }

-- A new pair of another task.
IsSound-other :
    (a : Attempt) (rest : List Attempt) (t : Task)
    → a.task_id ≢ t.id
    → IsSound rest t
    → IsSound (a ∷ rest) t
IsSound-other a rest t ne h =
    let same : open_pairs t.id (a ∷ rest) ≡ open_pairs t.id rest = ground arith in
    record { counts = rw same h.counts; single = omega (arith, same, h.single) }

-- The reservation of a pair for a task below its target that has none open.
reserve_pair-Inv :
    (t : Task) (plan : Plan) (cycle now : ℕ) (s : Store)
    → leb t.target_n t.scheduled_attempt_count ≡ false
    → in_flight s t.id ≡ false
    → get_task s t.id ≡ some t
    → Inv s
    → Inv (reserve_pair t plan cycle now s)
unfolding reserve_pair
reserve_pair-Inv t plan cycle now s under idle found h =
    let zero = count_where-any (is_open_pair t.id) s.attempts idle in
    let rows =
      All-zip (IsSound s.attempts) (λ u. u.id ≡ t.id → u ≡ t) s.tasks h.sound
        (get_task-only t.id s.tasks t h.keyed found) in
    let a = (reserve_pair t plan cycle now s).attempts in
    record {
      sound =
          All-update_where (λ u. IsSound s.attempts u × (u.id ≡ t.id → u ≡ t)) (IsSound a)
            (has_id t.id) (reserved now) s.tasks
            (λ u q e.
              let is_t : t ≡ u = sym (q.1 (has_id-eq t.id u e)) in
              IsSound-own _ s.attempts now u (ground arith) (ground arith) (ground arith) q.0)
            (λ u q e. IsSound-other _ s.attempts u (ground arith) q.0) rows;
      keyed = Keyed-update_where (has_id t.id) (reserved now) (λ u. refl) s.tasks h.keyed;
    }

pub get_task-id : (k : ℕ) (ts : List Task) (t : Task) → find? (has_id k) ts ≡ some t → t.id ≡ k
get_task-id k [] t e = cc e
get_task-id k (x ∷ xs) t e = elim (Bool-cases (has_id k x)) [
  | inl own ↦ ground arith
  | inr other ↦ get_task-id k xs t (ground arith)
]

-- A call of prepare_attempt refuses and changes nothing, or finds its task and reserves.
pub prepare_attempt-cases :
    (task_id : ℕ) (plan : Plan) (cycle now : ℕ) (s : Store)
    → (prepare_attempt task_id plan cycle now s ≡ (s, none))
      ⊎ ((t : Task) × (get_task s task_id ≡ some t)
          × (may_prepare t plan ≡ true)
          × (in_flight s t.id ≡ false)
          × (prepare_attempt task_id plan cycle now s
              ≡ (reserve_pair t plan cycle now s, some s.next_attempt_id)))
unfolding prepare_attempt
prepare_attempt-cases task_id plan cycle now s = elim (Option-cases (get_task s task_id)) [
  | inl e ↦ inl (rw (prepare_attempt, e) refl)
  | inr (t, e) ↦ elim (Bool-cases (may_prepare t plan && not (in_flight s t.id))) [
    | inl go ↦ inr (t, e, ground arith, ground arith, rw (prepare_attempt, e, go) refl)
    | inr refused ↦ inl (rw (prepare_attempt, e, refused) refl)
  ]
]

-- The reservation of a pair, whether made or refused, keeps the invariant of the database.
pub prepare_attempt-Inv :
    (task_id : ℕ) (plan : Plan) (cycle now : ℕ) (s : Store)
    → Inv s
    → Inv (prepare_attempt task_id plan cycle now s).0
prepare_attempt-Inv task_id plan cycle now s h =
    elim (prepare_attempt-cases task_id plan cycle now s) [
      | inl e ↦ rw e h
      | inr (t, found, may, idle, e) ↦
          let own : t.id ≡ task_id = get_task-id task_id s.tasks t found in
          rw e (
            reserve_pair-Inv t plan cycle now s (ground arith) idle (ap (get_task s) own ∙ found) h)
    ]

-- After a reservation for the task `k` its pair is open, so another is refused.
reserve_pair-refuses :
    (t : Task) (plan plan' : Plan) (cycle now cycle' now' : ℕ) (s : Store) (k : ℕ)
    → t.id ≡ k
    → (prepare_attempt k plan' cycle' now' (reserve_pair t plan cycle now s)).1 ≡ none
unfolding reserve_pair
reserve_pair-refuses t plan plan' cycle now cycle' now' s k own =
    let s' = reserve_pair t plan cycle now s in
    elim (prepare_attempt-cases k plan' cycle' now' s') [
      | inl e ↦ rw e refl
      | inr (u, found, _, idle, _) ↦
          let same : u.id ≡ k = get_task-id k s'.tasks u found in ground arith
    ]

-- A pair is reserved only for a running task below its target that has no open pair, and then no
-- second pair can be reserved for that task in the database that this leaves, whatever the plan.
pub prepare_attempt-exclusive :
    (task_id : ℕ) (plan : Plan) (cycle now : ℕ) (s : Store) (attempt_id : ℕ)
    → (prepare_attempt task_id plan cycle now s).1 ≡ some attempt_id
    → ((t : Task) × (get_task s task_id ≡ some t)
        × (t.status ≡ running)
        × (t.scheduled_attempt_count < t.target_n)
        × (in_flight s task_id ≡ false))
      × ((plan' : Plan) (cycle' now' : ℕ)
          → (prepare_attempt task_id plan' cycle' now'
              (prepare_attempt task_id plan cycle now s).0).1
            ≡ none)
prepare_attempt-exclusive task_id plan cycle now s attempt_id h =
    elim (prepare_attempt-cases task_id plan cycle now s) [
      | inl e ↦ cc (h, e)
      | inr (t, found, may, idle, e) ↦
          let own : t.id ≡ task_id = get_task-id task_id s.tasks t found in
          (
            (t, found, ground arith, ground arith, rw⁻¹ own idle),
            λ plan' cycle' now'.
                rw e (reserve_pair-refuses t plan plan' cycle now cycle' now' s task_id own),
          )
    ]
