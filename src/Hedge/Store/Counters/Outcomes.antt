-- ===== src/Hedge/Store/Counters/Outcomes.antt =====
-- What a settlement does to its task's status and reasons.
use binance_funding_hedging.Prelude.{
  ℕ, ◌≡◌, ◌≢◌, ◌⊎◌, ◌↔◌, ◌≤◌, Bool, true, false, Option, none, arith, inl, inr, refl, ◌∙◌,
}
use binance_funding_hedging.Hedge.Vocabulary.{
  running, done, stopped, deleted, AttemptCategory, PairOutcome, StopReason,
}
use binance_funding_hedging.Hedge.Attempt.{LegExposure}
use binance_funding_hedging.Hedge.Store.Rows.{Task}
use binance_funding_hedging.Hedge.Store.Counters.{
  apply_task_counters, settle_done, verdict, counted_verdict, skip_verdict, fatal_verdict,
  count_failure, count_success,
}

counted_verdict-deleted :
    (c : AttemptCategory) (x : Option LegExposure) (t : Task)
    → t.status ≡ deleted
    → (counted_verdict c x t).0.status ≡ deleted
unfolding counted_verdict count_success count_failure
counted_verdict-deleted c x t h = ground arith

skip_verdict-status :
    (c : AttemptCategory) (x : Option LegExposure) (t : Task)
    → (skip_verdict c x t).0.status ≡ t.status
unfolding skip_verdict
skip_verdict-status c x t = ground arith

settle_done-status :
    (skip suppress : Bool) (o : Option PairOutcome) (t : Task)
    → t.status ≢ running
    → t.status ≢ done
    → (settle_done skip suppress t o).status ≡ t.status
unfolding settle_done
settle_done-status skip suppress o t r d = ground arith

-- The status that a settlement leaves, before the time of the write.
abbrev settled :
    AttemptCategory → Option LegExposure → Bool → Option StopReason → Bool → Bool → Task → Task
settled c x fatal r skip suppress t =
    let (v, o) = verdict c x fatal r skip t in settle_done skip suppress v o

settled-skip_deleted :
    (c : AttemptCategory) (x : Option LegExposure) (fatal : Bool) (r : Option StopReason)
    → (suppress : Bool) (t : Task) → t.status ≡ deleted
    → (settled c x fatal r true suppress t).status ≡ deleted
unfolding verdict
settled-skip_deleted c x fatal r suppress t h =
    let (v, o) = skip_verdict c x t in
    let e : v.status ≡ deleted = skip_verdict-status c x t ∙ h in
    settle_done-status true suppress o v (λ z. cc) (λ z. cc) ∙ e

settled-counted_deleted :
    (c : AttemptCategory) (x : Option LegExposure) (r : Option StopReason) (suppress : Bool)
    (t : Task)
    → t.status ≡ deleted
    → (settled c x false r false suppress t).status ≡ deleted
unfolding verdict
settled-counted_deleted c x r suppress t h =
    let (v, o) = counted_verdict c x t in
    let e : v.status ≡ deleted = counted_verdict-deleted c x t h in
    settle_done-status false suppress o v (λ z. cc) (λ z. cc) ∙ e

settled-fatal :
    (c : AttemptCategory) (x : Option LegExposure) (r : Option StopReason) (suppress : Bool)
    (t : Task)
    → (settled c x true r false suppress t).status ≡ stopped
unfolding verdict fatal_verdict settle_done
settled-fatal c x r suppress t = ground arith

-- A deleted task stays deleted through a settlement exactly when the settlement is not fatal or
-- skips the counters; a fatal one that does not skip them makes it a stopped task.
pub apply_task_counters-deleted :
    (c : AttemptCategory) (x : Option LegExposure) (fatal : Bool) (r : Option StopReason)
    → (skip suppress : Bool) (now : ℕ) (t : Task) → t.status ≡ deleted
    → let t' = (apply_task_counters c x fatal r skip suppress now t).0 in
      ((t'.status ≡ deleted) ↔ ((fatal ≡ false) ⊎ (skip ≡ true)))
      × ((t'.status ≡ stopped) ↔ ((fatal ≡ true) × (skip ≡ false)))
unfolding apply_task_counters
apply_task_counters-deleted c x fatal r true suppress now t h =
    let e = settled-skip_deleted c x fatal r suppress t h in
    ((λ _. inr refl, λ _. e), (λ q. cc (e, q), λ q. cc (q.1)))
apply_task_counters-deleted c x true r false suppress now t h =
    let e = settled-fatal c x r suppress t in
    ((λ q. cc (e, q), λ q. elim q [ inl z ↦ cc z | inr z ↦ cc z ]), (λ _. (refl, refl), λ _. e))
apply_task_counters-deleted c x false r false suppress now t h =
    let e = settled-counted_deleted c x r suppress t h in
    ((λ _. inl refl, λ _. e), (λ q. cc (e, q), λ q. cc (q.0)))

settle_done-completes :
    (o : Option PairOutcome) (t : Task)
    → o ≢ none
    → t.target_n ≤ t.scheduled_attempt_count
    → (settle_done false false t o).status ≢ running
unfolding settle_done
settle_done-completes o t h k = ground arith

settle_done-suppressed :
    (skip : Bool) (o : Option PairOutcome) (t : Task)
    → o ≢ none
    → (settle_done skip true t o).status ≢ done
unfolding settle_done
settle_done-suppressed skip o t h = ground arith

counted_verdict-schedule :
    (c : AttemptCategory) (x : Option LegExposure) (t : Task)
    → let t' = (counted_verdict c x t).0 in
      (t'.target_n ≡ t.target_n) × (t'.scheduled_attempt_count ≡ t.scheduled_attempt_count)
unfolding counted_verdict count_success count_failure
counted_verdict-schedule c x t = (ground arith, ground arith)

fatal_verdict-schedule :
    (r : Option StopReason) (t : Task)
    → let t' = (fatal_verdict r t).0 in
      (t'.target_n ≡ t.target_n) × (t'.scheduled_attempt_count ≡ t.scheduled_attempt_count)
unfolding fatal_verdict
fatal_verdict-schedule r t = (refl, refl)

-- Once the last planned pair of a task is settled with an outcome, the counters not skipped and
-- completion not suppressed, the task does not stay running; and where completion is suppressed no
-- settlement with an outcome leaves the task done.
pub apply_task_counters-completes :
    (c : AttemptCategory) (x : Option LegExposure) (fatal : Bool) (r : Option StopReason)
    → (now : ℕ) (t : Task)
    → (t.target_n ≤ t.scheduled_attempt_count
        → (apply_task_counters c x fatal r false false now t).1 ≢ none
        → (apply_task_counters c x fatal r false false now t).0.status ≢ running)
      × ((skip : Bool)
          → (apply_task_counters c x fatal r skip true now t).1 ≢ none
          → (apply_task_counters c x fatal r skip true now t).0.status ≢ done)
unfolding apply_task_counters verdict
apply_task_counters-completes c x true r now t = (
  λ k o.
      let v = fatal_verdict r t in
      let (target, scheduled) = fatal_verdict-schedule r t in
      settle_done-completes v.1 v.0 o (rw (target, scheduled) k),
  λ skip o. let v = verdict c x true r skip t in settle_done-suppressed skip v.1 v.0 o,
)
apply_task_counters-completes c x false r now t = (
  λ k o.
      let v = counted_verdict c x t in
      let (target, scheduled) = counted_verdict-schedule c x t in
      settle_done-completes v.1 v.0 o (rw (target, scheduled) k),
  λ skip o. let v = verdict c x false r skip t in settle_done-suppressed skip v.1 v.0 o,
)
