-- ===== src/Generator/Readings.antt =====
-- fastapi_generator/generators.py: `generate_gas`, which draws the nine gases of a sensor. The results
-- of `random.random()` are an argument, the sequence of those that a call still has before it; each
-- function returns how many it has used up. A dict with all nine gases is a function from the gas.
pub mod Ranges
pub mod Danger
pub mod Examples
use sen_sa.Prelude.{
  ℕ, ◌+◌, ◌-◌, Bool, true, false, ◌&&◌, Option, none, some, List, [], ◌∷◌, String, ltb,
  if◌then◌else◌,
}
use sen_sa.Prelude.Float.{FloatOps}
use sen_sa.Prelude.Text.{str_eq}

pub data Gas : Type 0 where
  co h2s co2 o2 no2 so2 o3 nh3 voc : Gas

-- The order of `GAS_OU_PARAMS`, and the keys.
abbrev pub all_gases : List Gas
all_gases = co ∷ h2s ∷ co2 ∷ o2 ∷ no2 ∷ so2 ∷ o3 ∷ nh3 ∷ voc ∷ []

abbrev pub key_of : Gas → String
key_of co = "co"
key_of h2s = "h2s"
key_of co2 = "co2"
key_of o2 = "o2"
key_of no2 = "no2"
key_of so2 = "so2"
key_of o3 = "o3"
key_of nh3 = "nh3"
key_of voc = "voc"

abbrev pub same_gas : Gas → Gas → Bool
same_gas g h = str_eq (key_of g) (key_of h)

-- The order of `GAS_EVENTS`, and the `duration` of an event; 0 stands for a gas without one.
abbrev pub eventful_gases : List Gas
eventful_gases = co ∷ h2s ∷ o2 ∷ voc ∷ nh3 ∷ []

abbrev pub event_duration : Gas → ℕ
event_duration co = 6
event_duration h2s = 6
event_duration o2 = 6
event_duration voc = 4
event_duration nh3 = 6
event_duration _ = 0

-- The digits that `_round_gas` keeps.
abbrev pub digits : Gas → ℕ
digits co = 2
digits h2s = 2
digits co2 = 1
digits o2 = 1
digits no2 = 3
digits so2 = 2
digits o3 = 3
digits nh3 = 1
digits voc = 2

-- Where a gas stands in the loop.
abbrev pub place : Gas → ℕ
place co = 0
place h2s = 1
place co2 = 2
place o2 = 3
place no2 = 4
place so2 = 5
place o3 = 6
place nh3 = 7
place voc = 8

-- `events.get(key, 0)` for each gas
abbrev pub Events : Type 0
Events = Gas → ℕ

abbrev pub with_event : Events → Gas → ℕ → Events
with_event events g n h = if same_gas g h then n else events h

-- What a step of the mean reversion takes.
pub record Pull (F : Type 0) : Type 0 where
  pub center : F
  pub sigma : F

module _ (fl : FloatOps) where
  open fl use {Float, flt, fadd, fsub, fmul, fsqrt, lit, fround, fcos, fpi, flog}

  -- `GAS_NORMAL_CENTER`
  abbrev pub gas_normal_center : Gas → Float
  gas_normal_center co = lit 12 1
  gas_normal_center h2s = lit 2 1
  gas_normal_center co2 = lit 600 1
  gas_normal_center o2 = lit 209 10
  gas_normal_center no2 = lit 4 100
  gas_normal_center so2 = lit 2 10
  gas_normal_center o3 = lit 2 100
  gas_normal_center nh3 = lit 8 1
  gas_normal_center voc = lit 15 100

  -- `GAS_OU_PARAMS`: theta, sigma, min and max
  abbrev pub theta : Gas → Float
  theta o2 = lit 10 100
  theta _ = lit 8 100

  abbrev pub normal_sigma : Gas → Float
  normal_sigma co = lit 1 1
  normal_sigma h2s = lit 3 10
  normal_sigma co2 = lit 25 1
  normal_sigma o2 = lit 8 100
  normal_sigma no2 = lit 5 1000
  normal_sigma so2 = lit 2 100
  normal_sigma o3 = lit 2 1000
  normal_sigma nh3 = lit 7 10
  normal_sigma voc = lit 12 1000

  abbrev pub lowest : Gas → Float
  lowest co2 = lit 300 1
  lowest o2 = lit 15 1
  lowest _ = lit 0 1

  abbrev pub highest : Gas → Float
  highest co = lit 1000 1
  highest h2s = lit 100 1
  highest co2 = lit 40000 1
  highest o2 = lit 25 1
  highest no2 = lit 20 1
  highest so2 = lit 20 1
  highest o3 = lit 10 1
  highest nh3 = lit 100 1
  highest voc = lit 65 1

  -- `GAS_EVENTS`: prob, active_center and active_sigma, of the gases that have an event
  abbrev pub event_prob : Gas → Float
  event_prob h2s = lit 1 60
  event_prob nh3 = lit 1 60
  event_prob _ = lit 1 45

  abbrev pub active_pull : Gas → Pull Float
  active_pull co = record { center = lit 20 1; sigma = lit 15 10 }
  active_pull h2s = record { center = lit 6 1; sigma = lit 1 1 }
  active_pull o2 = record { center = lit 19 1; sigma = lit 3 10 }
  active_pull voc = record { center = lit 35 100; sigma = lit 4 100 }
  active_pull _ = record { center = lit 20 1; sigma = lit 15 10 }

  -- `max(a, b)` and `min(a, b)`: the first unless the second is beyond it
  abbrev pub fmax : Float → Float → Float
  fmax a b = if flt a b then b else a

  abbrev pub fmin : Float → Float → Float
  fmin a b = if flt b a then b else a

  -- A normal number out of two draws.
  unfoldable pub box_muller : (first second : Float) → Float
  box_muller first second =
      fmul (fsqrt (fmul (fsub (lit 0 1) (lit 2 1)) (flog (fmax (lit 1 10000000000) first))))
        (fcos (fmul (fmul (lit 2 1) fpi) second))

  unfoldable pub ou_step :
      (draw : ℕ → Float) → (used : ℕ) → (prev center theta sigma min_val max_val : Float) → Float
  unfolding box_muller
  ou_step draw used prev center theta sigma min_val max_val =
      let z = box_muller (draw used) (draw (used + 1)) in
      let nxt = fadd (fadd prev (fmul theta (fsub center prev))) (fmul sigma z) in
      fmin max_val (fmax min_val nxt)

  -- The dict that the scheduler keeps for a device.
  pub record SimState : Type 0 where
    pub last_gas : Option (Gas → Float)
    pub events : Events

  -- The gas's value of the last tick; the first call starts at the normal center.
  abbrev pub prev_value : Option (Gas → Float) → Gas → Float
  prev_value none g = gas_normal_center g
  prev_value (some last) g = last g

  abbrev pub is_active : (mode : String) → Events → Gas → Bool
  is_active mode events g = str_eq mode "mixed" && ltb 0 (events g)

  -- The two draws of the gas at a place of the loop, and its value.
  unfoldable pub drift : (draw : ℕ → Float) → (used : ℕ) → (mode : String) → SimState → Gas → Float
  unfolding ou_step
  drift draw used mode st g =
      let pull : Pull Float =
        (if is_active mode st.events g
          then active_pull g
          else record { center = gas_normal_center g; sigma = normal_sigma g }) in
      ou_step draw used (prev_value st.last_gas g) pull.center (theta g) pull.sigma (lowest g)
        (highest g)

  -- `events[key] -= 1` for the gases whose event is active
  abbrev pub count_down : (mode : String) → Events → Events
  count_down mode events g = if is_active mode events g then events g - 1 else events g

  -- The loop that starts new events; an event that still runs takes no draw.
  unfoldable pub trigger : (draw : ℕ → Float) → (used : ℕ) → List Gas → Events → Events
  trigger draw used [] events = events
  trigger draw used (g ∷ rest) events = elim (ltb 0 (events g)) [
    | true ↦ trigger draw used rest events
    | false ↦
        trigger draw (used + 1) rest (
          if flt (draw used) (event_prob g) then with_event events g (event_duration g) else events)
  ]

  -- `_round_gas`
  abbrev pub round_gas : (Gas → Float) → Gas → Float
  round_gas values g = fround (values g) (digits g)

  -- The danger mode: a base and the span of the draw.
  abbrev pub danger_base : Gas → Float
  danger_base co = lit 200 1
  danger_base h2s = lit 50 1
  danger_base co2 = lit 5000 1
  danger_base o2 = lit 12 1
  danger_base no2 = lit 50 10
  danger_base so2 = lit 50 10
  danger_base o3 = lit 1 10
  danger_base nh3 = lit 50 1
  danger_base voc = lit 20 10

  abbrev pub danger_span : Gas → Float
  danger_span co = lit 150 1
  danger_span h2s = lit 30 1
  danger_span co2 = lit 3000 1
  danger_span o2 = lit 35 10
  danger_span no2 = lit 3 1
  danger_span so2 = lit 3 1
  danger_span o3 = lit 1 10
  danger_span nh3 = lit 30 1
  danger_span voc = lit 2 1

  unfoldable pub generate_gas :
      (draw : ℕ → Float) → (mode : String) → SimState → SimState × (Gas → Float)
  unfolding drift trigger
  generate_gas draw mode st =
      let dangerous =
        round_gas (λ k. fadd (danger_base k) (fmul (draw (place k)) (danger_span k))) in
      let drifted = round_gas (λ k. drift draw (place k + place k) mode st k) in
      let counted = count_down mode st.events in
      let events : Events =
        (if str_eq mode "mixed" then trigger draw 18 eventful_gases counted else counted) in
      if str_eq mode "danger"
      then (record { last_gas = some dangerous; events = λ k. 0 }, dangerous)
      else (record { last_gas = some drifted; events = events }, drifted)
