-- ===== src/Dashboard/Check/Nearby.antt =====
-- Which sensors bear on a worker.
use mathlib.Core.Path.{ap₂}
use mathlib.Core.List.{append_assoc, append-nil}
use sen_sa.Prelude.{
  ◌≡◌, sym, ◌∙◌, Bool, not, ◌&&◌, ◌||◌, List, [], ◌∷◌, ◌++◌, map, String, arith, any, select,
  Bool-cases, inl, inr, if◌then◌else◌,
}
use sen_sa.Prelude.Float.{FloatOps}
use sen_sa.Alerts.Types.{Status, same_status}
use sen_sa.Dashboard.Check.{
  SensorItem, compute_nearby_sensor_status, distance, nearby_from, proximity_radius, worsen,
}

module _ (fl : FloatOps) (worker_x worker_y : fl.Float) where
  open fl use {Float, flt}

  -- Not normal, and no further than 200 pixels.
  abbrev pub is_near : SensorItem Float → Bool
  is_near s =
      not (same_status s.status Status.normal)
      && not (flt (proximity_radius fl) (distance fl worker_x worker_y s))

  abbrev pub is_danger : SensorItem Float → Bool
  is_danger s = same_status s.status Status.danger

  abbrev pub entry : SensorItem Float → String × Status
  entry s = (s.device_id, s.status)

  -- What the sensors make of a status: danger if one of them has it, or else the status if there
  -- are none, or else caution.
  abbrev pub worst_of : Status → List (SensorItem Float) → Status
  worst_of worst near =
      if any is_danger near || same_status worst Status.danger
      then Status.danger
      else elim near [ [] ↦ worst | _ ∷ _ ↦ Status.caution ]

  worst_of-worsen :
      (worst : Status) (s : SensorItem Float) (rest : List (SensorItem Float))
      → worst_of (worsen fl worst s.status) rest ≡ worst_of worst (s ∷ rest)
  worst_of-worsen worst s [] = ground arith
  worst_of-worsen worst s (t ∷ rest) = ground arith

  nearby_from_near :
      (worst : Status) (influencing : List (String × Status)) (sensors : List (SensorItem Float))
      → nearby_from fl worker_x worker_y (worst, influencing) sensors ≡ (
        worst_of worst (select is_near sensors),
        influencing ++ map entry (select is_near sensors),
      )
  unfolding nearby_from
  nearby_from_near worst influencing [] =
      ap₂ (λ (a : Status) (b : List (String × Status)). (a, b)) (ground arith)
        (sym (append-nil influencing))
  nearby_from_near worst influencing (s ∷ rest) =
      elim (Bool-cases (same_status s.status Status.normal)) [
        | inl normal ↦ rw normal (nearby_from_near worst influencing rest)
        | inr alarming ↦
            elim (Bool-cases (flt (proximity_radius fl) (distance fl worker_x worker_y s))) [
              | inl far ↦ rw (alarming, far) (nearby_from_near worst influencing rest)
              | inr close ↦
                  rw (alarming, close)
                    (nearby_from_near (worsen fl worst s.status) (influencing ++ entry s ∷ []) rest
                      ∙ ap₂ (λ (a : Status) (b : List (String × Status)). (a, b))
                          (worst_of-worsen worst s (select is_near rest))
                          (append_assoc influencing (entry s ∷ [])
                            (map entry (select is_near rest))))
            ]
      ]

  -- The sensors that bear on a worker are those that are not normal and no further than 200 pixels,
  -- in their order; the status is danger if one of them is in danger, normal if there are none, and
  -- else caution.
  pub compute_nearby_sensor_status_worst :
      (sensors : List (SensorItem Float))
      → compute_nearby_sensor_status fl worker_x worker_y sensors
        ≡ (worst_of Status.normal (select is_near sensors), map entry (select is_near sensors))
  unfolding compute_nearby_sensor_status
  compute_nearby_sensor_status_worst sensors = nearby_from_near Status.normal [] sensors
