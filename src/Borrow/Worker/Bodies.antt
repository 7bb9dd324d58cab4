-- ===== src/Borrow/Worker/Bodies.antt =====
-- The handlers of the borrow service that read a request body.
use binance_funding_hedging.Prelude.{
  ℕ, ◌≡◌, ◌≢◌, ◌<◌, ◌≤◌, inl, inr, refl, Bool, true, false, some, Bool-cases, String, [], ◌∷◌,
  arith, All, All-map, leb, find?-only,
}
use mathlib.Core.Path.{subst, sym}
use binance_funding_hedging.Borrow.Rows.{BorrowTask, BorrowStore}
use binance_funding_hedging.Borrow.Validate.{
  version_conflict, invalid_json, invalid_field, invalid_transition, Body, not_an_object, members,
  Field, answered, has_unknown_key, validate_asset, validate_amount, parse_interval_seconds,
  validate_success_target,
}
use binance_funding_hedging.Borrow.Attempts.{find_task}
use binance_funding_hedging.Borrow.Tasks.{is_version, edit_task, create_task}
use binance_funding_hedging.Borrow.Service.{
  create_request, edit_request, clear_request, settings_request, handle, create_keys, edit_keys,
  settings_keys, version_of, edit_reply, is_runnable, post_create, post_edit, clear_logs,
  put_settings,
}
use binance_funding_hedging.Borrow.Worker.{Running, created, edit_written, logs_cleared, configured}
use binance_funding_hedging.Borrow.Worker.Safety.{Inv}
use binance_funding_hedging.Borrow.Worker.Effects.{
  IsWritten, Wrote, Effect, written, untouched, checked-Wrote, test-Wrote, with_task-Wrote,
  rewritten-store,
}

validate_success_target-positive :
    (v : Field) (n : ℕ) → validate_success_target v ≡ answered n → 1 ≤ n
unfolding validate_success_target
validate_success_target-positive v n e = ground arith

-- The version and the target were tested on the row that the write finds.
edit_room :
    (w : Running) (k target version : ℕ) (t : BorrowTask)
    → Inv w
    → find_task w.store k ≡ some t
    → leb target t.success_count ≡ false
    → All (λ u. is_version k version u ≡ true → u.success_count < target) w.store.tasks
edit_room w k target version t h e above =
    All-map (λ (u : BorrowTask). u.id ≡ k → u ≡ t) _ w.store.tasks
      (λ u only own.
        subst (λ y. y.success_count < target) (sym (only (ground arith))) (ground arith))
      (find?-only (λ (u : BorrowTask). u.id) k w.store.tasks t h.keyed e)

abbrev EditedTask : Running → ℕ → ℕ → BorrowStore → Type 0
EditedTask w k now s =
    (t : BorrowTask) × (amount : String) × (target : ℕ) × (version : ℕ) × (find_task w.store k
      ≡ some t)
    × (is_runnable t.status ≡ true)
    × (t.success_count < target)
    × IsWritten w (edit_task k amount target version now w.store).0 s

edit_reply-Wrote :
    (w : Running) (k : ℕ) (t : BorrowTask) (amount : String) (target version now : ℕ)
    → find_task w.store k ≡ some t
    → is_runnable t.status ≡ true
    → leb target t.success_count ≡ false
    → All (λ t. is_version k version t ≡ true → t.success_count < target) w.store.tasks
    → Wrote (EditedTask w k now) w.store (edit_reply k amount target version now w.store)
edit_reply-Wrote w k t amount target version now found runs above room =
    let made = edit_task k amount target version now w.store in
    elim (Bool-cases made.1) [
      | inl e ↦ rw e (record {
        outcome = inl (
          t,
          amount,
          target,
          version,
          found,
          runs,
          ground arith,
          written w made.0 _ (rewritten-store k made.0)
              (edit_written w k amount target version now room),
        );
      })
      | inr e ↦ rw e (untouched w.store version_conflict)
    ]

pub post_edit-Effect :
    (w : Running) (k : ℕ) (body : Body) (now : ℕ) → Inv w → Effect (edit_request k body) now w
unfolding handle post_edit
post_edit-Effect w k not_an_object now h = untouched w.store invalid_json
post_edit-Effect w k (members keys value) now h =
    test-Wrote w.store {b = has_unknown_key keys edit_keys}
      (λ _. untouched w.store (invalid_field "body"))
      (λ _. with_task-Wrote w.store k (λ t found.
        test-Wrote w.store {b = is_runnable t.status}
          (λ runs.
            checked-Wrote w.store {v = validate_amount (value "amount_per_attempt")} (λ amount _.
              checked-Wrote w.store {v = validate_success_target (value "success_target")}
                (λ target _.
                  test-Wrote w.store {b = leb target t.success_count}
                    (λ _. untouched w.store (invalid_field "success_target"))
                    (λ above. checked-Wrote w.store {v = version_of (value "version")} (λ version _.
                      edit_reply-Wrote w k t amount target version now found runs above
                        (edit_room w k target version t h found above))))))
          (λ _. untouched w.store invalid_transition)))

pub post_create-Effect :
    (w : Running) (k : ℕ) (body : Body) (now : ℕ)
    → All (λ t. t.id ≢ k) w.store.tasks
    → All (λ a. a.task_id ≢ k) w.store.attempts
    → Effect (create_request k body) now w
unfolding handle post_create
post_create-Effect w k not_an_object now fresh unused = untouched w.store invalid_json
post_create-Effect w k (members keys value) now fresh unused =
    test-Wrote w.store {b = has_unknown_key keys create_keys}
      (λ _. untouched w.store (invalid_field "body"))
      (λ _. checked-Wrote w.store {v = validate_asset (value "asset")} (λ asset _.
        checked-Wrote w.store {v = validate_amount (value "amount_per_attempt")} (λ amount _.
          checked-Wrote w.store {v = validate_success_target (value "success_target")}
            (λ target valid.
              let made = create_task k asset amount target now w.store in
              let positive =
                validate_success_target-positive (value "success_target") target valid in
              record {
                outcome = inl (
                  asset,
                  amount,
                  target,
                  positive,
                  written w made _ (rewritten-store k made)
                      (created w k asset amount target now fresh unused positive),
                );
              }))))

pub clear_logs-Effect :
    (w : Running) (confirm : Bool) (body : Body) (now : ℕ)
    → Effect (clear_request confirm body) now w
unfolding handle clear_logs
clear_logs-Effect w confirm not_an_object now = untouched w.store invalid_json
clear_logs-Effect w false (members keys value) now = untouched w.store (invalid_field "confirm")
clear_logs-Effect w true (members keys value) now =
    test-Wrote w.store {b = has_unknown_key keys ("confirm" ∷ [])}
      (λ _. untouched w.store (invalid_field "body"))
      (λ _. record { outcome = inl (refl, (refl, logs_cleared w)) })

pub put_settings-Effect :
    (w : Running) (body : Body) (now : ℕ) → Effect (settings_request body) now w
unfolding handle put_settings
put_settings-Effect w not_an_object now = untouched w.store invalid_json
put_settings-Effect w (members [] value) now =
    test-Wrote w.store {b = has_unknown_key [] settings_keys}
      (λ _. untouched w.store (invalid_field "body"))
      (λ _. untouched w.store (invalid_field "interval_seconds"))
put_settings-Effect w (members (k ∷ keys) value) now =
    test-Wrote w.store {b = has_unknown_key (k ∷ keys) settings_keys}
      (λ _. untouched w.store (invalid_field "body"))
      (λ _.
        checked-Wrote w.store {v = parse_interval_seconds (value "interval_seconds")}
          (λ (p : String × ℕ) _. record {
            outcome = inl (p.0, p.1, (refl, configured w p.0 p.1 now));
          }))
