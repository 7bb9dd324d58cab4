-- ===== src/Hedge/Worker/Pair/Gated.antt =====
-- A pair behind a closed gate.
use binance_funding_hedging.Prelude.{
  arith, ℕ, ◌≡◌, Bool, true, false, not, refl, ◌⊎◌, inl, inr, ◌&&◌, sym,
}
use mathlib.Core.Path.{subst}
use binance_funding_hedging.Hedge.Vocabulary.{is_close, close_task}
use binance_funding_hedging.Hedge.Store.Rows.{Task, Store}
use binance_funding_hedging.Hedge.Worker.Dispatch.{LiveAttemptDispatch}
use binance_funding_hedging.Hedge.Worker.Checks.{Words, check_pair, Reads, Release}
use binance_funding_hedging.Hedge.Worker.Pair.{send_pair, pair_if_live, dispatch_one_for_task}

abbrev pub answered : Reads → LiveAttemptDispatch → Reads
answered r a = record r { dispatched = a }

pair_if_live-unsent :
    (w : Words) (r : Reads) (release : Release) (t : Task) (now : ℕ) (s : Store)
    (a b : LiveAttemptDispatch)
    → pair_if_live w (answered r a) release false t now s
      ≡ pair_if_live w (answered r b) release false t now s
unfolding send_pair check_pair
pair_if_live-unsent w r release t now s a b = refl

pair_if_live-closed :
    (w : Words) (r : Reads) (release : Release) (live : Bool) (t : Task) (now : ℕ) (s : Store)
    (a b : LiveAttemptDispatch)
    → is_close t.task_type && not s.settings.close_gate ≡ true
    → pair_if_live w (answered r a) release live t now s
      ≡ pair_if_live w (answered r b) release live t now s
pair_if_live-closed w r release false t now s a b off = pair_if_live-unsent w r release t now s a b
pair_if_live-closed w r release true t now s a b off = simp off

-- With the start gate off, or for a close with the close gate off, no answer of the exchange to the two
-- orders makes a difference to a pair: it is not sent.
pub dispatch_one_for_task-gated :
    (w : Words) (r : Reads) (release : Release) (t : Task) (now : ℕ) (s : Store)
    (a b : LiveAttemptDispatch)
    → (s.settings.start_gate ≡ false)
      ⊎ ((t.task_type ≡ close_task) × (s.settings.close_gate ≡ false))
    → dispatch_one_for_task w (answered r a) release t now s
      ≡ dispatch_one_for_task w (answered r b) release t now s
unfolding dispatch_one_for_task
dispatch_one_for_task-gated w r release t now s a b (inl off) =
    subst
      (λ live.
        pair_if_live w (answered r a) release live t now s
        ≡ pair_if_live w (answered r b) release live t now s)
      (sym off) (pair_if_live-unsent w r release t now s a b)
dispatch_one_for_task-gated w r release t now s a b (inr (close, off)) =
    pair_if_live-closed w r release s.settings.start_gate t now s a b (ground arith)
