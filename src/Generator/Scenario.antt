-- ===== src/Generator/Scenario.antt =====
-- fastapi_generator/scenario.py: `ScenarioState`. Time is in microseconds. A toggle is stored for a
-- mapped device only, since `toggle` refuses all others.
pub mod Phases
pub mod Ramp
pub mod Examples
use sen_sa.Prelude.{
  ℕ, ◌+◌, ◌-◌, ◌/◌, Bool, true, false, ◌||◌, Option, none, some, List, [], ◌∷◌, String, ltb, ◌==◌,
  if◌then◌else◌,
}
use sen_sa.Prelude.Text.{str_eq}
use sen_sa.Alerts.Types.{Status}

pub data Kind : Type 0 where
  gas power : Kind

-- `SCENARIO_DEVICE_MAP`, and its keys in order
unfoldable pub scenario_device : String → Option (String × Kind)
scenario_device id =
    if str_eq id "sensor_01"
    then some ("G3", gas)
    else if str_eq id "sensor_02"
    then some ("G4", gas)
    else if str_eq id "sensor_03"
    then some ("G1", gas)
    else if str_eq id "power_01"
    then some ("P1", power)
    else if str_eq id "power_02"
    then some ("P3", power)
    else none

abbrev pub scenario_devices : List String
scenario_devices = "sensor_01" ∷ "sensor_02" ∷ "sensor_03" ∷ "power_01" ∷ "power_02" ∷ []

-- `PHASE_DURATION_GAS_SEC` and `PHASE_DURATION_POWER_SEC`
abbrev pub phase_duration : Kind → ℕ
phase_duration gas = 30000000
phase_duration power = 120000000

-- `PHASE_STATUS`; a phase is at most 5
unfoldable pub phase_status : ℕ → Status
phase_status phase =
    if phase == 2
    then Status.caution
    else if phase == 3 || phase == 4
    then Status.danger
    else Status.normal

pub record Toggle : Type 0 where
  pub on : Bool
  pub current_phase : ℕ
  pub phase_started_at : ℕ

abbrev pub Toggles : Type 0
Toggles = String → Option Toggle

abbrev pub put : Toggles → String → Toggle → Toggles
put toggles id t other = if str_eq id other then some t else toggles other

abbrev pub idle : ℕ → Toggle
idle now = record { on = false; current_phase = 0; phase_started_at = now }

abbrev pub existing : Toggles → ℕ → String → Toggle
existing toggles now id = elim (toggles id) [ some t ↦ t | none ↦ idle now ]

unfoldable pub switch_on : ℕ → Toggle → Toggle
switch_on now t =
    let next : ℕ = (if t.current_phase == 0 || t.current_phase == 5 then 1 else t.current_phase) in
    record {
      on = true;
      current_phase = next;
      phase_started_at = if next == t.current_phase then t.phase_started_at else now;
    }

unfoldable pub switch_off : ℕ → Toggle → Toggle
switch_off now t =
    if t.current_phase == 0
    then idle now
    else record { on = false; current_phase = 5; phase_started_at = now }

-- The result is the stored toggle; `none` is the error of a device that is not mapped.
unfoldable pub toggle : Toggles → (now : ℕ) (id : String) (state : Bool) → Toggles × Option Toggle
unfolding switch_on switch_off
toggle toggles now id state = elim (scenario_device id) [
  | none ↦ (toggles, none)
  | some _ ↦
      let t : Toggle = existing toggles now id in
      let t' : Toggle = (if state then switch_on now t else switch_off now t) in
      (put toggles id t', some t')
]

-- The part of `get_phase` for a stored toggle.
unfoldable pub ramp : Kind → (now : ℕ) → Toggle → Toggle
ramp kind now t =
    if ltb (now - t.phase_started_at) (phase_duration kind)
    then t
    else if t.on
    then (if ltb t.current_phase 4
        then record t { current_phase = t.current_phase + 1; phase_started_at = now }
        else t)
    else (if t.current_phase == 5
        then record t { current_phase = 0; phase_started_at = now }
        else t)

unfoldable pub get_phase : Toggles → (now : ℕ) (id : String) → Toggles × ℕ
unfolding ramp
get_phase toggles now id = elim (scenario_device id) [
  | none ↦ (toggles, 0)
  | some (_, kind) ↦ elim (toggles id) [
    | none ↦ (toggles, 0)
    | some t ↦ (put toggles id (ramp kind now t), (ramp kind now t).current_phase)
  ]
]

count_on : Toggles → List String → ℕ
count_on toggles [] = 0
count_on toggles (id ∷ rest) =
    elim (toggles id) [ some t ↦ if t.on then 1 else 0 | none ↦ 0 ] + count_on toggles rest

put_idle : ℕ → Toggles → List String → Toggles
put_idle now toggles [] = toggles
put_idle now toggles (id ∷ rest) = put_idle now (put toggles id (idle now)) rest

unfoldable pub clear_all : Toggles → (now : ℕ) → Toggles × ℕ
unfolding count_on put_idle
clear_all toggles now = (put_idle now toggles scenario_devices, count_on toggles scenario_devices)

-- One entry of `state()`: the phase may move on before it is reported, and the elapsed seconds are
-- those of the toggle after that.
pub record Report : Type 0 where
  pub on : Bool
  pub phase : ℕ
  pub elapsed_in_phase_sec : ℕ
  pub scenario_id : String

report_of : Toggles → ℕ → String → String × Kind → Toggles × Report
unfolding get_phase
report_of toggles now id (scenario, kind) =
    let (toggles', phase) = get_phase toggles now id in
    let t : Toggle = existing toggles' now id in
    (
      toggles',
      record {
        on = t.on;
        phase = phase;
        elapsed_in_phase_sec = (now - t.phase_started_at) / 1000000;
        scenario_id = scenario;
      },
    )

state_from : Toggles → ℕ → List String → Toggles × List Report
unfolding report_of scenario_device
state_from toggles now [] = (toggles, [])
state_from toggles now (id ∷ rest) = elim (scenario_device id) [
  | none ↦ state_from toggles now rest
  | some entry ↦
      let (toggles', r) = report_of toggles now id entry in
      let (end, rs) = state_from toggles' now rest in (end, r ∷ rs)
]

unfoldable pub state : Toggles → (now : ℕ) → Toggles × List Report
unfolding state_from
state toggles now = state_from toggles now scenario_devices

pub record Labels : Type 0 where
  pub scenario_id : String
  pub expected_phase : ℕ
  pub expected_status : Status

-- The labels of a mapped device; `none` stands for the three nulls of any other.
unfoldable pub get_labels : Toggles → (now : ℕ) (id : String) → Toggles × Option Labels
unfolding get_phase phase_status
get_labels toggles now id = elim (scenario_device id) [
  | none ↦ (toggles, none)
  | some (scenario, _) ↦
      let (toggles', phase) = get_phase toggles now id in
      (
        toggles',
        some (record {
          scenario_id = scenario;
          expected_phase = phase;
          expected_status = phase_status phase;
        }),
      )
]
