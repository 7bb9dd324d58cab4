-- ===== src/Hedge/Service/Gates.antt =====
-- What the writes of a gate guard against.
use binance_funding_hedging.Prelude.{
  ℕ, ◌≡◌, Bool, true, false, List, String, inl, inr, refl, arith, Bool-cases, ◌==◌, ◌∙◌, sym, ap,
}
use binance_funding_hedging.Hedge.Errors.{HedgeError, IsRefused, version_conflict, Result, ok, err}
use binance_funding_hedging.Hedge.Store.Rows.{Gate, open_side, close_side, Settings, Store}
use binance_funding_hedging.Hedge.Store.Gates.{gate_value, gate_swapped, set_gate_cas}
use binance_funding_hedging.Hedge.Service.{
  Field, null, negative, other, boolean, whole, members, has_unknown_key, gate_keys, put_gate,
  put_fields, swap_reply,
}

-- The two gates take a write of one of them.
abbrev pub other_gate : Gate → Gate
other_gate open_side = close_side
other_gate close_side = open_side

gate_swapped-value :
    (g : Gate) (enabled : Bool) (version now : ℕ) (s : Store)
    → let after = (gate_swapped g enabled version now s).settings in
      (gate_value g after ≡ enabled)
      × (gate_value (other_gate g) after ≡ gate_value (other_gate g) s.settings)
gate_swapped-value open_side enabled version now s = (refl, refl)
gate_swapped-value close_side enabled version now s = (refl, refl)

-- What the fields of a body are where a write of a gate is taken, and what it does.
abbrev pub IsConfirmed : Gate → Field → Field → Field → Store → Store → Settings → Type 0
IsConfirmed g asked confirm version s after c =
    (enabled : Bool) × (asked ≡ boolean enabled)
    × (confirm ≡ boolean true)
    × (version ≡ whole s.settings.version)
    × (gate_value g c ≡ enabled)
    × (gate_value (other_gate g) c ≡ gate_value (other_gate g) s.settings)
    × (c ≡ after.settings)

-- A write that is taken is confirmed, and a write that is refused leaves the database.
abbrev pub IsGuarded : Gate → Field → Field → Field → Store → Store × Result Settings → Type 0
IsGuarded g asked confirm version s d =
    ((c : Settings) → d.1 ≡ ok c → IsConfirmed g asked confirm version s d.0 c)
    × (IsRefused d.1 → d.0 ≡ s)

refusal-IsGuarded :
    (g : Gate) (asked confirm version : Field) (s : Store) (e : HedgeError)
    → IsGuarded g asked confirm version s (s, err e)
refusal-IsGuarded g asked confirm version s e = (λ c answer. absurd (cc answer), λ _. refl)

swap-IsGuarded :
    (g : Gate) (enabled : Bool) (version now : ℕ) (s : Store)
    → IsGuarded g
        (boolean enabled)
        (boolean true)
        (whole version)
        s
        (swap_reply (set_gate_cas g enabled version now s))
unfolding set_gate_cas
swap-IsGuarded g enabled version now s = elim (Bool-cases (s.settings.version == version)) [
  | inr e ↦
      rw (set_gate_cas, e)
        (refusal-IsGuarded g (boolean enabled) (boolean true) (whole version) s version_conflict)
  | inl e ↦
      let own : s.settings.version ≡ version = ground arith in
      let (set, others) = gate_swapped-value g enabled version now s in
      let after = (gate_swapped g enabled version now s).settings in
      rw (set_gate_cas, e)
        (
          λ c answer.
              let same : after ≡ c = ground arith in
              (
                enabled,
                refl,
                refl,
                ap (λ n. whole n) (sym own),
                ap (gate_value g) (sym same) ∙ set,
                ap (gate_value (other_gate g)) (sym same) ∙ others,
                sym same,
              ),
          λ refused. absurd (cc refused.1),
        )
]

put_fields-IsGuarded :
    (g : Gate) (asked confirm version : Field) (now : ℕ) (s : Store)
    → IsGuarded g asked confirm version s (put_fields g asked confirm version now s)
put_fields-IsGuarded g null confirm version now s = refusal-IsGuarded g _ _ _ s _
put_fields-IsGuarded g negative confirm version now s = refusal-IsGuarded g _ _ _ s _
put_fields-IsGuarded g other confirm version now s = refusal-IsGuarded g _ _ _ s _
put_fields-IsGuarded g (whole n) confirm version now s = refusal-IsGuarded g _ _ _ s _
put_fields-IsGuarded g (boolean b) null version now s = refusal-IsGuarded g _ _ _ s _
put_fields-IsGuarded g (boolean b) negative version now s = refusal-IsGuarded g _ _ _ s _
put_fields-IsGuarded g (boolean b) other version now s = refusal-IsGuarded g _ _ _ s _
put_fields-IsGuarded g (boolean b) (whole n) version now s = refusal-IsGuarded g _ _ _ s _
put_fields-IsGuarded g (boolean b) (boolean false) version now s = refusal-IsGuarded g _ _ _ s _
put_fields-IsGuarded g (boolean b) (boolean true) null now s = refusal-IsGuarded g _ _ _ s _
put_fields-IsGuarded g (boolean b) (boolean true) negative now s = refusal-IsGuarded g _ _ _ s _
put_fields-IsGuarded g (boolean b) (boolean true) other now s = refusal-IsGuarded g _ _ _ s _
put_fields-IsGuarded g (boolean b) (boolean true) (boolean v) now s = refusal-IsGuarded g _ _ _ s _
put_fields-IsGuarded g (boolean b) (boolean true) (whole n) now s = swap-IsGuarded g b n now s

put_gate-IsGuarded :
    (g : Gate) (keys : List String) (value : String → Field) (now : ℕ) (s : Store)
    → IsGuarded g
        (value "enabled")
        (value "confirm")
        (value "version")
        s
        (put_gate g (members keys value) now s)
unfolding put_gate
put_gate-IsGuarded g keys value now s = elim (Bool-cases (has_unknown_key keys gate_keys)) [
  | inl e ↦ rw (put_gate, e) (refusal-IsGuarded g _ _ _ s _)
  | inr e ↦ rw (put_gate, e) (put_fields-IsGuarded g _ _ _ now s)
]

-- A write of a gate is taken only with a Boolean to set, an explicit true as confirmation and the
-- version that the settings have; then the gate is what was asked, the other gate is as it was, and
-- the answer is the settings of the database that is left.
pub put_gate-IsConfirmed :
    (g : Gate) (keys : List String) (value : String → Field) (now : ℕ) (s : Store) (c : Settings)
    → (put_gate g (members keys value) now s).1 ≡ ok c
    → IsConfirmed g
        (value "enabled")
        (value "confirm")
        (value "version")
        s
        (put_gate g (members keys value) now s).0
        c
put_gate-IsConfirmed g keys value now s c = (put_gate-IsGuarded g keys value now s).0 c

-- A write of a gate that is refused leaves the database.
pub put_gate-refused :
    (g : Gate) (keys : List String) (value : String → Field) (now : ℕ) (s : Store)
    → IsRefused (put_gate g (members keys value) now s).1
    → (put_gate g (members keys value) now s).0 ≡ s
put_gate-refused g keys value now s = (put_gate-IsGuarded g keys value now s).1
