-- ===== src/Hedge/Errors.antt =====
-- HedgeError of backend/hedge_open_tasks/domain.py, and the results of the functions that raise it.
use binance_funding_hedging.Prelude.{◌≡◌, refl, ◌⊎◌, inl, inr, String}

pub data HedgeError : Type 0 where
  -- invalid_field(name, reason): status 400, code "invalid_field"
  invalid_field : String → HedgeError
  -- HedgeError(400, "invalid_limit", ...)
  invalid_limit : HedgeError
  -- the other codes that the service raises; a version conflict also carries the settings
  invalid_json confirmation_required version_conflict unknown_task invalid_state : HedgeError
  start_gate_closed close_gate_closed smooth_close_start_failed start_required : HedgeError

-- What a call gives: it raises, or returns a value.
pub data Result {ℓ} (A : Type ℓ) : Type ℓ where
  err : HedgeError → Result A
  ok : A → Result A

-- The call raises.
abbrev pub IsRefused {ℓ} : {A : Type ℓ} → Result A → Type ℓ
IsRefused {A = A} r = (e : HedgeError) × (r ≡ err e)

pub Result-cases {ℓ} :
    {Value : Type ℓ} (call : Result Value)
    → ((raised : HedgeError) × (call ≡ err raised)) ⊎ ((value : Value) × (call ≡ ok value))
Result-cases (err raised) = inl (raised, refl)
Result-cases (ok value) = inr (value, refl)

-- A call whose value the next one takes.
infixl 5 ◌>>=◌
abbrev pub ◌>>=◌ {ℓ κ} :
    {First : Type ℓ} {Second : Type κ} → Result First → (First → Result Second) → Result Second
err raised >>= next = err raised
ok value >>= next = next value

-- Where both calls together return, each does.
pub >>=-eq-ok {ℓ κ} :
    {First : Type ℓ} {Second : Type κ} (call : Result First) (next : First → Result Second)
    → {last : Second} → (call >>= next) ≡ ok last
    → (value : First) × (call ≡ ok value) × (next value ≡ ok last)
>>=-eq-ok (err raised) next returned = cc
>>=-eq-ok (ok value) next returned = (value, refl, returned)
