-- ===== src/Generator/Scenario/Ramp.antt =====
-- How the phase of a device that is polled moves on with time.
use Prim.Native.Nat.{min}
use sen_sa.Prelude.{
  ℕ, ◌+◌, ◌*◌, ◌≤◌, ◌<◌, ◌≡◌, refl, ◌∙◌, ap, sym, true, false, none, some, List, [], ◌∷◌, String,
  arith, length, Option-cases, inl, inr, ◌⊎◌,
}
use sen_sa.Prelude.Text.{eq_refl}
use sen_sa.Generator.Scenario.{
  Kind, gas, power, scenario_device, phase_duration, Toggle, Toggles, existing, switch_off, toggle,
  ramp, get_phase,
}

get_phase_stored :
    (toggles : Toggles) (now : ℕ) (id name : String) (kind : Kind) (t : Toggle)
    → scenario_device id ≡ some (name, kind)
    → toggles id ≡ some t
    → ((get_phase toggles now id).0 id ≡ some (ramp kind now t))
      × ((get_phase toggles now id).1 ≡ (ramp kind now t).current_phase)
unfolding get_phase
get_phase_stored toggles now id name kind t mapped stored =
    rw (mapped, stored, get_phase, eq_refl id) (refl, refl)

ramp_idem : (kind : Kind) (now : ℕ) (t : Toggle) → ramp kind now (ramp kind now t) ≡ ramp kind now t
unfolding ramp
ramp_idem kind now t = ground arith

get_phase_absent :
    (toggles : Toggles) (now : ℕ) (id : String)
    → (scenario_device id ≡ none) ⊎ (toggles id ≡ none)
    → get_phase toggles now id ≡ (toggles, 0)
unfolding get_phase
get_phase_absent toggles now id h = ground arith

-- What does not store a toggle is the same when it is asked again.
again_of_absent :
    (toggles : Toggles) (now : ℕ) (id : String)
    → get_phase toggles now id ≡ (toggles, 0)
    → let (toggles', phase) = get_phase toggles now id in
      ((get_phase toggles' now id).0 id ≡ toggles' id) × ((get_phase toggles' now id).1 ≡ phase)
again_of_absent toggles now id e = (
  ap (λ (p : Toggles × ℕ). (get_phase p.0 now id).0 id) e,
  ap (λ (p : Toggles × ℕ). (get_phase p.0 now id).1) e,
)

-- To ask for the phase again at the same instant changes nothing and gives the same answer.
pub get_phase_idem :
    (toggles : Toggles) (now : ℕ) (id : String)
    → let (toggles', phase) = get_phase toggles now id in
      ((get_phase toggles' now id).0 id ≡ toggles' id) × ((get_phase toggles' now id).1 ≡ phase)
get_phase_idem toggles now id = elim (Option-cases (scenario_device id)) [
  | inl other ↦ again_of_absent toggles now id (get_phase_absent toggles now id (inl other))
  | inr ((name, kind), mapped) ↦ elim (Option-cases (toggles id)) [
    | inl new ↦ again_of_absent toggles now id (get_phase_absent toggles now id (inr new))
    | inr (t, stored) ↦
        let (now_stored, phase) = get_phase_stored toggles now id name kind t mapped stored in
        let (again, same) =
          get_phase_stored _ now id name kind (ramp kind now t) mapped now_stored in
        (
          again ∙ ap some (ramp_idem kind now t) ∙ sym now_stored,
          same ∙ ap (λ (t : Toggle). t.current_phase) (ramp_idem kind now t) ∙ sym phase,
        )
  ]
]

-- Polls that are a phase's duration or more apart, the first as long after `last`.
abbrev pub IsSpaced : (duration last : ℕ) → List ℕ → Type 0
IsSpaced duration last [] = Unit
IsSpaced duration last (now ∷ rest) = (last + duration ≤ now) × IsSpaced duration now rest

pub poll_all : Toggles → String → List ℕ → Toggles
poll_all toggles id [] = toggles
poll_all toggles id (now ∷ rest) = poll_all (get_phase toggles now id).0 id rest

ramp_on :
    (kind : Kind) (now last : ℕ) (t : Toggle)
    → t.on ≡ true
    → t.current_phase ≤ 4
    → t.phase_started_at ≤ last
    → last + phase_duration kind ≤ now
    → ((ramp kind now t).on ≡ true)
      × ((ramp kind now t).current_phase ≡ min 4 (t.current_phase + 1))
      × ((ramp kind now t).phase_started_at ≤ now)
unfolding ramp
ramp_on kind now last t on low started late = ground arith

-- A device that is switched on and polled no more often than the phases last climbs one phase at
-- each poll and stays at the peak, phase 4.
pub poll_all_climbs :
    (toggles : Toggles) (id name : String) (kind : Kind) (t : Toggle) (last : ℕ) (polls : List ℕ)
    → scenario_device id ≡ some (name, kind)
    → toggles id ≡ some t
    → t.on ≡ true
    → t.current_phase ≤ 4
    → t.phase_started_at ≤ last
    → IsSpaced (phase_duration kind) last polls
    → (t' : Toggle) × (poll_all toggles id polls id ≡ some t')
      × (t'.on ≡ true)
      × (t'.current_phase ≡ min 4 (t.current_phase + length polls))
unfolding poll_all
poll_all_climbs toggles id name kind t last [] mapped stored on low started spaced =
    (t, stored, on, omega arith)
poll_all_climbs toggles id name kind t last (now ∷ rest) mapped stored on low started
      (late, spaced) =
    let (on', phase', started') = ramp_on kind now last t on low started late in
    let (t', stored', on'', climbed) =
      poll_all_climbs (get_phase toggles now id).0 id name kind (ramp kind now t) now rest mapped
        (get_phase_stored toggles now id name kind t mapped stored).0 on' (omega arith) started'
        spaced in
    (t', stored', on'', omega arith)

-- Polls in the order of time, the first not before `from`, and the last of them.
abbrev pub IsAscending : (from : ℕ) → List ℕ → Type 0
IsAscending from [] = Unit
IsAscending from (now ∷ rest) = (from ≤ now) × IsAscending now rest

abbrev pub last_of : (from : ℕ) → List ℕ → ℕ
last_of from [] = from
last_of from (now ∷ rest) = last_of now rest

-- A device that is on, in a phase up to the peak that began by `now`; before the peak the phase is
-- not over yet.
abbrev pub IsClimbing : Kind → (now : ℕ) → Toggle → Type 0
IsClimbing kind now t =
    (t.on ≡ true)
    × (t.current_phase ≤ 4)
    × (t.phase_started_at ≤ now)
    × ((t.current_phase ≡ 4) ⊎ (now < t.phase_started_at + phase_duration kind))

-- From one toggle to the next no phase is lost, and each phase gained took its duration at least.
abbrev pub IsPaced : Kind → Toggle → Toggle → Type 0
IsPaced kind t t' =
    (t.current_phase ≤ t'.current_phase)
    × (t.phase_started_at + t'.current_phase * phase_duration kind
        ≤ t'.phase_started_at + t.current_phase * phase_duration kind)

ramp-IsPaced :
    (kind : Kind) (now last : ℕ) (t : Toggle)
    → IsClimbing kind last t
    → last ≤ now
    → IsClimbing kind now (ramp kind now t) × IsPaced kind t (ramp kind now t)
unfolding ramp
ramp-IsPaced gas now last t climbing later = ground arith
ramp-IsPaced power now last t climbing later = ground arith

IsPaced-trans :
    (kind : Kind) (t t' t'' : Toggle) → IsPaced kind t t' → IsPaced kind t' t'' → IsPaced kind t t''
IsPaced-trans gas t t' t'' h k = ground (arith, h, k)
IsPaced-trans power t t' t'' h k = ground (arith, h, k)

-- However often a device that is on is polled: it climbs no faster than one phase in a phase's
-- duration, it loses none, and at the last poll it is at the peak or its phase is not over yet.
pub poll_all-IsPaced :
    (toggles : Toggles) (id name : String) (kind : Kind) (t : Toggle) (last : ℕ) (polls : List ℕ)
    → scenario_device id ≡ some (name, kind)
    → toggles id ≡ some t
    → IsClimbing kind last t
    → IsAscending last polls
    → (t' : Toggle) × (poll_all toggles id polls id ≡ some t')
      × IsClimbing kind (last_of last polls) t'
      × IsPaced kind t t'
unfolding poll_all
poll_all-IsPaced toggles id name kind t last [] mapped stored climbing ascending =
    (t, stored, climbing, (omega arith, omega arith))
poll_all-IsPaced toggles id name kind t last (now ∷ rest) mapped stored climbing
      (later, ascending) =
    let (climbing', paced) = ramp-IsPaced kind now last t climbing later in
    let (t', stored', climbed, paced') =
      poll_all-IsPaced (get_phase toggles now id).0 id name kind (ramp kind now t) now rest mapped
        (get_phase_stored toggles now id name kind t mapped stored).0 climbing' ascending in
    (t', stored', climbed, IsPaced-trans kind t (ramp kind now t) t' paced paced')

toggle_off_stored :
    (toggles : Toggles) (id name : String) (kind : Kind) (now : ℕ)
    → scenario_device id ≡ some (name, kind)
    → (toggle toggles now id false).0 id ≡ some (switch_off now (existing toggles now id))
unfolding toggle
toggle_off_stored toggles id name kind now mapped = rw (mapped, toggle, eq_refl id) refl

ramp-switch_off :
    (kind : Kind) (now later : ℕ) (t : Toggle)
    → now + phase_duration kind ≤ later
    → (ramp kind later (switch_off now t)).current_phase ≡ 0
unfolding ramp switch_off
ramp-switch_off kind now later t late = ground arith

-- A mapped device that is switched off, in whatever phase it was, is back in phase 0 at a poll that
-- comes a phase's duration later or more.
pub toggle_off_returns :
    (toggles : Toggles) (id name : String) (kind : Kind) (now later : ℕ)
    → scenario_device id ≡ some (name, kind)
    → now + phase_duration kind ≤ later
    → (get_phase (toggle toggles now id false).0 later id).1 ≡ 0
toggle_off_returns toggles id name kind now later mapped late =
    let off = toggle_off_stored toggles id name kind now mapped in
    (get_phase_stored (toggle toggles now id false).0 later id name kind
      (switch_off now (existing toggles now id)) mapped off).1
    ∙ ramp-switch_off kind now later (existing toggles now id) late
