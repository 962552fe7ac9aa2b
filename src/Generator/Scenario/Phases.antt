-- ===== src/Generator/Scenario/Phases.antt =====
-- The phases that the toggles of scenario.py can be in, and the moves between them.
use sen_sa.Prelude.{
  ℕ, ◌≤◌, ◌≡◌, Bool, true, false, none, some, List, [], ◌∷◌, String, arith, ◌⊎◌, inl, inr,
  if◌then◌else◌, Option-cases,
}
use sen_sa.Generator.Scenario.{
  Kind, scenario_device, scenario_devices, Toggle, Toggles, put, idle, existing, switch_on,
  switch_off, toggle, ramp, get_phase, put_idle, clear_all,
}

-- Switched on, a device is in a phase from 1 to 4; switched off, it is normal or on its way back.
abbrev pub IsPhased : Toggle → Type 0
IsPhased t =
    (t.on ≡ true) × (1 ≤ t.current_phase) × (t.current_phase ≤ 4)
    ⊎ (t.on ≡ false) × ((t.current_phase ≡ 0) ⊎ (t.current_phase ≡ 5))

abbrev pub AllPhased : Toggles → Type 0
AllPhased toggles = (id : String) (t : Toggle) → toggles id ≡ some t → IsPhased t

put-AllPhased :
    (toggles : Toggles) (id : String) (t : Toggle)
    → AllPhased toggles
    → IsPhased t
    → AllPhased (put toggles id t)
put-AllPhased toggles id t every h other u e = ground (arith, every other u)

existing-IsPhased :
    (toggles : Toggles) (now : ℕ) (id : String)
    → AllPhased toggles
    → IsPhased (existing toggles now id)
existing-IsPhased toggles now id every = ground (arith, every id (existing toggles now id))

switch_on-IsPhased : (now : ℕ) (t : Toggle) → IsPhased t → IsPhased (switch_on now t)
unfolding switch_on
switch_on-IsPhased now t h = ground arith

switch_off-IsPhased : (now : ℕ) (t : Toggle) → IsPhased t → IsPhased (switch_off now t)
unfolding switch_off
switch_off-IsPhased now t h = ground arith

ramp-IsPhased : (kind : Kind) (now : ℕ) (t : Toggle) → IsPhased t → IsPhased (ramp kind now t)
unfolding ramp
ramp-IsPhased kind now t h = ground arith

put_idle-AllPhased :
    (now : ℕ) (toggles : Toggles) (ids : List String)
    → AllPhased toggles
    → AllPhased (put_idle now toggles ids)
unfolding put_idle
put_idle-AllPhased now toggles [] every = every
put_idle-AllPhased now toggles (id ∷ rest) every =
    put_idle-AllPhased now (put toggles id (idle now)) rest
      (put-AllPhased toggles id (idle now) every (ground arith))

toggle-AllPhased :
    (toggles : Toggles) (now : ℕ) (id : String) (state : Bool)
    → AllPhased toggles
    → AllPhased (toggle toggles now id state).0
unfolding toggle
toggle-AllPhased toggles now id state every = elim (Option-cases (scenario_device id)) [
  | inl other ↦ rw (other, toggle) every
  | inr (entry, mapped) ↦
      rw (mapped, toggle)
        (put-AllPhased toggles id _ every
          (chosen state (existing toggles now id) (existing-IsPhased toggles now id every)))
]
  where
    chosen :
        (b : Bool) (t : Toggle)
        → IsPhased t
        → IsPhased (if b then switch_on now t else switch_off now t)
    chosen true t h = switch_on-IsPhased now t h
    chosen false t h = switch_off-IsPhased now t h

get_phase-AllPhased :
    (toggles : Toggles) (now : ℕ) (id : String)
    → AllPhased toggles
    → AllPhased (get_phase toggles now id).0
unfolding get_phase
get_phase-AllPhased toggles now id every = elim (Option-cases (scenario_device id)) [
  | inl other ↦ rw (other, get_phase) every
  | inr ((name, kind), mapped) ↦ elim (Option-cases (toggles id)) [
    | inl new ↦ rw (mapped, new, get_phase) every
    | inr (t, old) ↦
        rw (mapped, old, get_phase)
          (put-AllPhased toggles id (ramp kind now t) every
            (ramp-IsPhased kind now t (every id t old)))
  ]
]

-- What a client can do to the toggles.
pub data Request : Type 0 where
  set : (id : String) (state : Bool) → Request
  poll : (id : String) → Request
  clear : Request

unfoldable pub serve : Toggles → (now : ℕ) → Request → Toggles
unfolding toggle get_phase clear_all
serve toggles now (set id state) = (toggle toggles now id state).0
serve toggles now (poll id) = (get_phase toggles now id).0
serve toggles now clear = (clear_all toggles now).0

pub serve_all : Toggles → List (ℕ × Request) → Toggles
serve_all toggles [] = toggles
serve_all toggles ((now, request) ∷ rest) = serve_all (serve toggles now request) rest

serve-AllPhased :
    (toggles : Toggles) (now : ℕ) (request : Request)
    → AllPhased toggles
    → AllPhased (serve toggles now request)
unfolding serve
serve-AllPhased toggles now (set id state) every = toggle-AllPhased toggles now id state every
serve-AllPhased toggles now (poll id) every = get_phase-AllPhased toggles now id every
serve-AllPhased toggles now clear every = put_idle-AllPhased now toggles scenario_devices every

serve_from-AllPhased :
    (requests : List (ℕ × Request)) (toggles : Toggles)
    → AllPhased toggles
    → AllPhased (serve_all toggles requests)
unfolding serve_all
serve_from-AllPhased [] toggles every = every
serve_from-AllPhased ((now, request) ∷ rest) toggles every =
    serve_from-AllPhased rest (serve toggles now request)
      (serve-AllPhased toggles now request every)

-- From a start without toggles, whatever the requests and their times, every stored toggle is in a
-- phase that fits its switch.
pub serve_all-AllPhased :
    (requests : List (ℕ × Request)) → AllPhased (serve_all (λ _. none) requests)
serve_all-AllPhased requests = serve_from-AllPhased requests (λ _. none) (λ id t e. cc)
