-- ===== src/Borrow/Worker/Effects.antt =====
-- What a request may do to the database of the borrow service.
use binance_funding_hedging.Prelude.{
  ◌⊎◌, ℕ, ◌≡◌, ◌≢◌, ◌<◌, ◌≤◌, inl, inr, refl, Bool, true, false, none, some, Option-cases, String,
  All, if◌then◌else◌,
}
use mathlib.Core.Path.{subst, sym}
use binance_funding_hedging.Borrow.Rows.{BorrowTask, BorrowStore, borrowing, paused, deleted}
use binance_funding_hedging.Borrow.Validate.{BorrowError, unknown_task, Reply, refused, answered}
use binance_funding_hedging.Borrow.Attempts.{find_task}
use binance_funding_hedging.Borrow.Tasks.{
  edit_task, create_task, set_task_status, clear_attempt_logs,
}
use binance_funding_hedging.Borrow.Settings.{update_settings, set_execution_enabled}
use binance_funding_hedging.Borrow.Service.{
  Request, create_request, start_request, pause_request, delete_request, edit_request,
  clear_request, settings_request, execution_request, handle, checked, with_task, rewritten,
  started, is_runnable, post_create, post_edit, clear_logs, put_settings,
}
use binance_funding_hedging.Borrow.Worker.{Running, Step}

-- The one transaction that leads from a running service to a database.
abbrev pub IsWritten : Running → BorrowStore → BorrowStore → Type 0
IsWritten w made s = (s ≡ made) × Step w (record w { store = s })

pub written :
    (w : Running) (made s : BorrowStore)
    → s ≡ made
    → Step w (record w { store = made })
    → IsWritten w made s
written w made s e st = (e, subst (λ d. Step w (record w { store = d })) (sym e) st)

-- The reply is an error.
abbrev pub IsError {ℓ} : {A : Type ℓ} → Reply A → Type ℓ
IsError {A = A} r = (e : BorrowError) × (r ≡ refused e)

-- A handler that wrote what its request asks for, or refused it and left the database as it was.
pub record Wrote {ℓ} {A : Type ℓ} (own : BorrowStore → Type 0) (s : BorrowStore)
    (r : BorrowStore × Reply A) : Type ℓ where
  pub outcome : own r.0 ⊎ ((r.0 ≡ s) × IsError r.1)

-- What a request does to a running service, beside the reply.
abbrev pub Effect : Request → ℕ → Running → Type 0
Effect (create_request k body) now w =
    Wrote
      (λ s.
        (asset : String) × (amount : String) × (target : ℕ) × (1 ≤ target)
        × IsWritten w (create_task k asset amount target now w.store) s)
      w.store (handle (create_request k body) now w.store, (post_create k body now w.store).1)
Effect (start_request k) now w =
    ((t : BorrowTask) × (find_task w.store k ≡ some t)
      × (t.status ≡ paused)
      × IsWritten w (set_task_status k (started t) (some true) now w.store)
          (handle (start_request k) now w.store))
    ⊎ (((handle (start_request k) now w.store) ≡ w.store)
        × ((t : BorrowTask) → find_task w.store k ≡ some t → t.status ≢ paused))
Effect (pause_request k) now w =
    ((t : BorrowTask) × (find_task w.store k ≡ some t)
      × (t.status ≡ borrowing)
      × IsWritten w (set_task_status k paused none now w.store)
          (handle (pause_request k) now w.store))
    ⊎ (((handle (pause_request k) now w.store) ≡ w.store)
        × ((t : BorrowTask) → find_task w.store k ≡ some t → t.status ≢ borrowing))
Effect (delete_request k) now w =
    ((t : BorrowTask) × (find_task w.store k ≡ some t)
      × (t.status ≢ deleted)
      × IsWritten w (set_task_status k deleted none now w.store)
          (handle (delete_request k) now w.store))
    ⊎ (((handle (delete_request k) now w.store) ≡ w.store)
        × ((t : BorrowTask) → find_task w.store k ≡ some t → t.status ≡ deleted))
Effect (edit_request k body) now w =
    Wrote
      (λ s.
        (t : BorrowTask) × (amount : String) × (target : ℕ) × (version : ℕ) × (find_task w.store k
          ≡ some t)
        × (is_runnable t.status ≡ true)
        × (t.success_count < target)
        × IsWritten w (edit_task k amount target version now w.store).0 s)
      w.store (handle (edit_request k body) now w.store, (post_edit k body now w.store).1)
Effect (clear_request confirm body) now w =
    Wrote (λ s. (confirm ≡ true) × IsWritten w (clear_attempt_logs w.store) s) w.store
      (handle (clear_request confirm body) now w.store, (clear_logs confirm body w.store).1)
Effect (settings_request body) now w =
    Wrote
      (λ s.
        (seconds : String) × (interval : ℕ) × IsWritten w
          (update_settings seconds interval now w.store) s)
      w.store (handle (settings_request body) now w.store, (put_settings body now w.store).1)
Effect (execution_request enabled) now w =
    IsWritten w (set_execution_enabled enabled now w.store)
      (handle (execution_request enabled) now w.store)

pub untouched {ℓ} :
    {A : Type ℓ} {own : BorrowStore → Type 0} (s : BorrowStore) (e : BorrowError)
    → Wrote {A = A} own s (s, refused e)
untouched s e = record { outcome = inr (refl, (e, refl)) }

-- Lifts what a handler wrote through the validations, the tests, the read of a task and the answer.
pub checked-Wrote {ℓ κ} :
    {A : Type ℓ} {B : Type κ} {own : BorrowStore → Type 0} (s : BorrowStore) {v : Reply A}
    {go : A → BorrowStore × Reply B}
    → ((a : A) → v ≡ answered a → Wrote own s (go a))
    → Wrote own s (checked s v go)
checked-Wrote s {v = refused e} h = untouched s e
checked-Wrote s {v = answered a} h = h a refl

pub test-Wrote {ℓ} :
    {A : Type ℓ} {own : BorrowStore → Type 0} (s : BorrowStore) {b : Bool}
    {r q : BorrowStore × Reply A}
    → (b ≡ true → Wrote own s r)
    → (b ≡ false → Wrote own s q)
    → Wrote own s (if b then r else q)
test-Wrote s {b = true} h g = h refl
test-Wrote s {b = false} h g = g refl

pub with_task-Wrote {ℓ} :
    {A : Type ℓ} {own : BorrowStore → Type 0} (s : BorrowStore) (k : ℕ)
    {go : BorrowTask → BorrowStore × Reply A}
    → ((t : BorrowTask) → find_task s k ≡ some t → Wrote own s (go t))
    → Wrote own s (with_task k s go)
with_task-Wrote s k h = elim (Option-cases (find_task s k)) [
  | inl e ↦ rw (with_task, e) (untouched s unknown_task)
  | inr (t, e) ↦ rw (with_task, e) (h t e)
]

pub rewritten-store : (k : ℕ) (s : BorrowStore) → (rewritten k s).0 ≡ s
rewritten-store k s = elim (Option-cases (find_task s k)) [
  | inl e ↦ rw (rewritten, e) refl
  | inr (t, e) ↦ rw (rewritten, e) refl
]

-- The ids that uuid4 draws are not in use.
abbrev pub IsFresh : Request → Running → Type 0
IsFresh (create_request k body) w =
    All (λ t. t.id ≢ k) w.store.tasks × All (λ a. a.task_id ≢ k) w.store.attempts
IsFresh _ w = Unit
