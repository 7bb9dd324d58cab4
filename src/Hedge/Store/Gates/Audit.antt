-- ===== src/Hedge/Store/Gates/Audit.antt =====
-- What the versions and the audit rows of the gates promise.
use binance_funding_hedging.Prelude.{
  ℕ, ◌+◌, ◌≡◌, ◌≤◌, Bool, Option, none, some, List, [], ◌∷◌, arith, refl, Bool-cases, inl, inr,
  ◌==◌, ◌⊎◌, All, ◌∙◌, ap,
}
use binance_funding_hedging.Hedge.Store.Rows.{
  Gate, open_side, close_side, Subject, of_gate, LogEntry, gate_changed, Log, Settings, Store,
}
use binance_funding_hedging.Hedge.Store.Gates.{
  gate_value, gate_swapped, set_gate_cas, set_rate_limit_order, SettingsWrite, swap, overwrite,
  limit, write_settings, write_all,
}

for_gates {ℓ} : (P : Gate → Type ℓ) → P open_side → P close_side → (g : Gate) → P g
for_gates P o c open_side = o
for_gates P o c close_side = c

gate_swapped-version :
    (g : Gate) (enabled : Bool) (version now : ℕ) (s : Store)
    → (gate_swapped g enabled version now s).settings.version ≡ s.settings.version + 1
gate_swapped-version open_side enabled version now s = refl
gate_swapped-version close_side enabled version now s = refl

-- A swap finds its version and writes, or leaves the database.
set_gate_cas-cases :
    (g : Gate) (enabled : Bool) (version now : ℕ) (s : Store)
    → ((s.settings.version ≡ version)
        × ((set_gate_cas g enabled version now s).0 ≡ gate_swapped g enabled version now s))
      ⊎ (set_gate_cas g enabled version now s ≡ (s, none))
unfolding set_gate_cas
set_gate_cas-cases g enabled version now s = elim (Bool-cases (s.settings.version == version)) [
  | inl e ↦ inl (ground arith, rw (set_gate_cas, e) refl)
  | inr e ↦ inr (rw (set_gate_cas, e) refl)
]

write_settings-version :
    (w : SettingsWrite) (s : Store) → s.settings.version ≤ (write_settings w s).settings.version
unfolding write_settings
write_settings-version (swap g enabled version now) s =
    elim (set_gate_cas-cases g enabled version now s) [
      | inl (_, e) ↦
          rw (write_settings, e)
            (let more = gate_swapped-version g enabled version now s in omega arith)
      | inr e ↦ rw (write_settings, e) (omega arith)
    ]
write_settings-version (overwrite enabled now) s = omega arith
write_settings-version (limit n now) s = omega arith

write_all-version :
    (ws : List SettingsWrite) (s : Store) → s.settings.version ≤ (write_all ws s).settings.version
unfolding write_all
write_all-version [] s = omega arith
write_all-version (w ∷ ws) s =
    let first = write_settings-version w s in
    let rest = write_all-version ws (write_settings w s) in omega arith

-- A swap of either gate that has found its version uses it up: after it, and after any further
-- writes to the settings, a second swap that expects the same version answers nothing and changes
-- nothing.
pub set_gate_cas-once :
    (g g' : Gate) (enabled enabled' : Bool) (version now now' : ℕ) (ws : List SettingsWrite)
    (s : Store) (c : Settings)
    → (set_gate_cas g enabled version now s).1 ≡ some c
    → let after = write_all ws (set_gate_cas g enabled version now s).0 in
      set_gate_cas g' enabled' version now' after ≡ (after, none)
set_gate_cas-once g g' enabled enabled' version now now' ws s c hit =
    elim (set_gate_cas-cases g enabled version now s) [
      | inr e ↦ cc (hit, e)
      | inl (found, e) ↦
          let after = write_all ws (set_gate_cas g enabled version now s).0 in
          let rest = write_all-version ws (set_gate_cas g enabled version now s).0 in
          let bump =
            ap (λ (d : Store). d.settings.version) e
            ∙ gate_swapped-version g enabled version now s in
          elim (set_gate_cas-cases g' enabled' version now' after) [
            | inl (again, _) ↦ absurd (omega arith)
            | inr refused ↦ refused
          ]
    ]

-- The value and the value before that a log row gives for a gate.
abbrev pub change_of : Gate → Subject → LogEntry → Option (Bool × Bool)
change_of open_side (of_gate open_side) (gate_changed b p v) = some (b, p)
change_of close_side (of_gate close_side) (gate_changed b p v) = some (b, p)
change_of _ _ _ = none

-- The value of a gate by its audit rows, the newest first.
unfoldable pub audited : Gate → Bool → List Log → Bool
audited g initial [] = initial
audited g initial (l ∷ ls) =
    let before = audited g initial ls in
    elim (change_of g l.task_id l.entry) [ none ↦ before | some c ↦ c.0 ]

-- Each audit row of a gate has as the value before what the older rows give.
unfoldable pub IsChained : Gate → Bool → List Log → Type 0
unfolding audited
IsChained g initial [] = Unit
IsChained g initial (l ∷ ls) =
    ((c : Bool × Bool) → change_of g l.task_id l.entry ≡ some c → c.1 ≡ audited g initial ls)
    × IsChained g initial ls

-- Each gate is what its audit rows give, and the rows are a chain.
pub record IsAudited (initial : Gate → Bool) (s : Store) : Type 0 where
  pub value : (g : Gate) → gate_value g s.settings ≡ audited g (initial g) s.logs
  pub chain : (g : Gate) → IsChained g (initial g) s.logs

-- The writes that keep an audit, which are all but the unconditional one.
abbrev pub IsAuditing : SettingsWrite → Type 0
IsAuditing (overwrite _ _) = ⊥
IsAuditing _ = Unit

gate_swapped-IsAudited :
    (initial : Gate → Bool) (g : Gate) (enabled : Bool) (version now : ℕ) (s : Store)
    → IsAudited initial s
    → IsAudited initial (gate_swapped g enabled version now s)
unfolding audited IsChained
gate_swapped-IsAudited initial open_side enabled version now s h =
    let after = gate_swapped open_side enabled version now s in
    record {
      value =
          for_gates (λ g. gate_value g after.settings ≡ audited g (initial g) after.logs) refl
            (h.value close_side);
      chain =
          for_gates (λ g. IsChained g (initial g) after.logs)
            (λ c e. cc (e, h.value open_side), h.chain open_side) (λ c e. cc e, h.chain close_side);
    }
gate_swapped-IsAudited initial close_side enabled version now s h =
    let after = gate_swapped close_side enabled version now s in
    record {
      value =
          for_gates (λ g. gate_value g after.settings ≡ audited g (initial g) after.logs)
            (h.value open_side) refl;
      chain =
          for_gates (λ g. IsChained g (initial g) after.logs) (λ c e. cc e, h.chain open_side)
            (λ c e. cc (e, h.value close_side), h.chain close_side);
    }

write_settings-IsAudited :
    (initial : Gate → Bool) (w : SettingsWrite) (s : Store)
    → IsAuditing w
    → IsAudited initial s
    → IsAudited initial (write_settings w s)
unfolding write_settings set_rate_limit_order
write_settings-IsAudited initial (swap g enabled version now) s ok h =
    elim (set_gate_cas-cases g enabled version now s) [
      | inl (_, e) ↦
          rw (write_settings, e) (gate_swapped-IsAudited initial g enabled version now s h)
      | inr e ↦ rw (write_settings, e) h
    ]
write_settings-IsAudited initial (overwrite _ _) s ok h = elim ok [ ]
write_settings-IsAudited initial (limit n now) s ok h = record {
  value =
      for_gates
        (λ g. gate_value g (set_rate_limit_order n now s).settings ≡ audited g (initial g) s.logs)
        (h.value open_side) (h.value close_side);
  chain = h.chain;
}

-- Over any sequence of swaps of the two gates and changes of the order limit, each gate keeps the
-- value that its newest audit row gives, or its first value where it has none, and each audit row
-- gives as the value before what the older rows give.
pub write_all-IsAudited :
    (initial : Gate → Bool) (ws : List SettingsWrite) (s : Store)
    → All IsAuditing ws
    → IsAudited initial s
    → IsAudited initial (write_all ws s)
unfolding write_all
write_all-IsAudited initial [] s ok h = h
write_all-IsAudited initial (w ∷ ws) s ok h =
    write_all-IsAudited initial ws (write_settings w s) ok.1
      (write_settings-IsAudited initial w s ok.0 h)
