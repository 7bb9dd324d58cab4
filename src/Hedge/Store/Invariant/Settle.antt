-- ===== src/Hedge/Store/Invariant/Settle.antt =====
-- What the settlement of a pair does to the invariant of the database.
use binance_funding_hedging.Prelude.{
  ℕ, ◌+◌, ◌≡◌, ◌≤◌, Bool, true, false, List, arith, update_where, All-update_where, Option, some,
  none, ◌==◌, ◌≢◌, sym, count_where-update_where, count_where-update_find?, ap, ◌∙◌,
}
use binance_funding_hedging.Hedge.Vocabulary.{
  AttemptCategory, success, single_leg_exposure, failed, execution_disabled, fatal_submission,
  StopReason, PairOutcome,
}
use binance_funding_hedging.Hedge.Attempt.{LegExposure}
use binance_funding_hedging.Hedge.Store.Rows.{Task, Attempt, Store, LogEntry}
use binance_funding_hedging.Hedge.Store.Counters.{
  apply_task_counters, verdict, settle_done, counted_verdict, skip_verdict, fatal_verdict,
  count_success, count_failure,
}
use binance_funding_hedging.Hedge.Store.Counters.Laws.{IsCounted, apply_task_counters-IsCounted}
use binance_funding_hedging.Hedge.Store.Tasks.{is_open_pair, has_id}
use binance_funding_hedging.Hedge.Store.Settle.{
  get_attempt, settle, append_log, Settlement, counted, stop_reason_of,
}
use binance_funding_hedging.Hedge.Store.Invariant.{open_pairs, IsSound, Inv, Keyed-update_where}
use binance_funding_hedging.Hedge.Store.Invariant.Prepare.{has_id-eq}

-- The three verdicts on two legs; each gives the pair an outcome.
abbrev pub IsVerdict : AttemptCategory → Type 0
IsVerdict success = Unit
IsVerdict single_leg_exposure = Unit
IsVerdict failed = Unit
IsVerdict execution_disabled = ⊥
IsVerdict fatal_submission = ⊥

verdict-outcome :
    (c : AttemptCategory) (x : Option LegExposure) (fatal : Bool) (r : Option StopReason)
    → (skip : Bool) (t : Task) → IsVerdict c
    → (verdict c x fatal r skip t).1 ≢ none
unfolding verdict skip_verdict fatal_verdict counted_verdict
verdict-outcome c x fatal r skip t v = ground arith

verdict-id :
    (c : AttemptCategory) (x : Option LegExposure) (fatal : Bool) (r : Option StopReason)
    → (skip : Bool) (t : Task) → (verdict c x fatal r skip t).0.id ≡ t.id
unfolding verdict skip_verdict fatal_verdict counted_verdict count_success count_failure
verdict-id c x fatal r skip t = ground arith

settle_done-id :
    (skip suppress : Bool) (t : Task) (o : Option PairOutcome)
    → (settle_done skip suppress t o).id ≡ t.id
unfolding settle_done
settle_done-id skip suppress t o = ground arith

counted-id : (st : Settlement) (now : ℕ) (t : Task) → (counted st now t).0.id ≡ t.id
unfolding apply_task_counters
counted-id st now t =
    let r = stop_reason_of st.is_fatal in
    let (v, o) = verdict st.category st.exposure st.is_fatal r st.skip_counters t in
    settle_done-id st.skip_counters st.suppress_done v o
    ∙ verdict-id st.category st.exposure st.is_fatal r st.skip_counters t

pub counted-outcome :
    (st : Settlement) (now : ℕ) (t : Task) → IsVerdict st.category → (counted st now t).1 ≢ none
unfolding apply_task_counters
counted-outcome st now t v =
    verdict-outcome st.category st.exposure st.is_fatal (stop_reason_of st.is_fatal)
      st.skip_counters t v

shrunk : (t : Task) (n m : ℕ) → m ≤ n → IsCounted t n → IsCounted t m
shrunk t n m le h = ground arith

-- A row of another task, when the open pairs of no task become more.
pub IsSound-fewer :
    (before after : List Attempt) (t : Task)
    → open_pairs t.id after ≤ open_pairs t.id before
    → IsSound before t
    → IsSound after t
IsSound-fewer before after t le h = record {
  counts = shrunk t (open_pairs t.id before) (open_pairs t.id after) le h.counts;
  single = omega (arith, le, h.single);
}

-- The row of the task whose open pair is settled.
IsSound-settled :
    (st : Settlement) (now : ℕ) (before after : List Attempt) (t : Task)
    → open_pairs t.id after + 1 ≤ open_pairs t.id before
    → IsSound before t
    → IsSound after (counted st now t).0
IsSound-settled st now before after t drop h =
    let t' = (counted st now t).0 in
    let same : open_pairs t'.id after ≡ open_pairs t.id after =
      ap (λ x. open_pairs x after) (counted-id st now t) in
    let counts =
      (apply_task_counters-IsCounted st.category st.exposure st.is_fatal
        (stop_reason_of st.is_fatal) st.skip_counters st.suppress_done now t (open_pairs t.id after)
        (shrunk t (open_pairs t.id before) (open_pairs t.id after + 1) drop h.counts)).0 in
    record {
      counts =
          shrunk t' (open_pairs t.id after) (open_pairs t'.id after) (omega (arith, same)) counts;
      single = omega (arith, same, drop, h.single);
    }

pub closed_pair : (k : ℕ) (b : Attempt) → b.pair_outcome ≢ none → is_open_pair k b ≡ false
closed_pair k b h = ground arith

pub open_of :
    (k : ℕ) (b : Attempt) → b.task_id ≡ k → b.pair_outcome ≡ none → is_open_pair k b ≡ true
open_of k b own h = ground arith

pub append_log-Inv :
    (task_id now : ℕ) (entry : Option LogEntry) (s : Store)
    → Inv s
    → Inv (append_log task_id now entry s)
append_log-Inv task_id now none s h = h
append_log-Inv task_id now (some entry) s h = record { sound = h.sound; keyed = h.keyed }

-- The settlement of an open pair with an outcome keeps the invariant, whatever else is stamped on the
-- attempt's row.
pub settle-Inv :
    (attempt_id : ℕ) (a : Attempt) (t : Task) (st : Settlement) (now : ℕ)
    → (stamp : Attempt → Attempt) (s : Store)
    → ((b : Attempt) → (stamp b).pair_outcome ≡ b.pair_outcome)
    → get_attempt s attempt_id ≡ some a
    → a.pair_outcome ≡ none
    → IsVerdict st.category
    → Inv s
    → Inv (settle attempt_id a t st now stamp s)
unfolding settle
settle-Inv attempt_id a t st now stamp s keeps found unsettled v h =
    let o = (counted st now t).1 in
    let hit : Attempt → Bool = λ b. b.id == attempt_id in
    let f : Attempt → Attempt = λ b. stamp (record b { pair_outcome = o }) in
    let after = update_where hit f s.attempts in
    let gone : (k : ℕ) (b : Attempt) → is_open_pair k (f b) ≡ false = λ k b.
      let e = keeps (record b { pair_outcome = o }) in
      let some_o = counted-outcome st now t v in closed_pair k (f b) (λ z. some_o (sym e ∙ z)) in
    let fewer : (k : ℕ) → open_pairs k after ≤ open_pairs k s.attempts =
      λ k. count_where-update_where (is_open_pair k) hit f s.attempts (gone k) in
    let row : Task → Task = λ u. (counted st now u).0 in
    append_log-Inv a.task_id now (counted st now t).2
      (record s { tasks = update_where (has_id a.task_id) row s.tasks; attempts = after })
      (record {
        sound =
            All-update_where (IsSound s.attempts) (IsSound after) (has_id a.task_id) row s.tasks
              (λ u q e.
                let own : u.id ≡ a.task_id = has_id-eq a.task_id u e in
                let drop =
                  count_where-update_find? (is_open_pair u.id) hit f s.attempts a (gone u.id) found
                    (open_of u.id a (sym own) unsettled) in
                IsSound-settled st now s.attempts after u drop q)
              (λ u q e. IsSound-fewer s.attempts after u (fewer u.id) q) h.sound;
        keyed = Keyed-update_where (has_id a.task_id) row (counted-id st now) s.tasks h.keyed;
      })
