-- ===== src/Generator/Walk/Inside.antt =====
-- A worker stays on the map.
use sen_sa.Prelude.{◌≡◌, true, false, Bool-cases, inl, inr, if_cases}
use sen_sa.Prelude.Float.{FloatOps}
use sen_sa.Generator.Readings.{fmax, fmin}
use sen_sa.Generator.Walk.{Walker, margin, right_edge, bottom_edge, bounced, move_worker}

module _ (fl : FloatOps) where
  open fl use {Float, flt}

  -- What is relied on of the order: no number is below one that is below it, and the edges are
  -- beyond the margin.
  pub record Order : Type 0 where
    pub asym : (a b : Float) → flt a b ≡ true → flt b a ≡ false
    pub right : flt (margin fl) (right_edge fl) ≡ true
    pub bottom : flt (margin fl) (bottom_edge fl) ≡ true

  irrefl : (order : Order) (a : Float) → flt a a ≡ false
  irrefl order a = elim (Bool-cases (flt a a)) [ inl e ↦ order.asym a a e | inr e ↦ e ]

  -- A coordinate is not below the margin and not beyond the edge.
  abbrev pub IsWithin : (edge v : Float) → Type 0
  IsWithin edge v = (flt v (margin fl) ≡ false) × (flt edge v ≡ false)

  clamp-IsWithin :
      (order : Order) (edge v : Float)
      → flt (margin fl) edge ≡ true
      → IsWithin edge (fmax fl (margin fl) (fmin fl edge v))
  clamp-IsWithin order edge v beyond =
      let low : flt edge (fmin fl edge v) ≡ false =
        if_cases (λ m. flt edge m ≡ false) (flt v edge) (order.asym v edge)
          (λ e. irrefl order edge) in
      if_cases (IsWithin edge) (flt (margin fl) (fmin fl edge v))
        (λ e. (order.asym (margin fl) (fmin fl edge v) e, low))
        (λ e. (irrefl order (margin fl), order.asym (margin fl) edge beyond))

  bounced-IsWithin :
      (order : Order) (edge v speed : Float)
      → flt (margin fl) edge ≡ true
      → IsWithin edge (bounced fl edge v speed).0
  unfolding bounced
  bounced-IsWithin order edge v speed beyond = elim (Bool-cases (flt v (margin fl))) [
    | inl e ↦ rw e (clamp-IsWithin order edge v beyond)
    | inr above ↦ elim (Bool-cases (flt edge v)) [
      | inl e ↦ rw (above, e) (clamp-IsWithin order edge v beyond)
      | inr below ↦ rw (above, below) (above, below)
    ]
  ]

  -- Wherever a worker stood, however fast, and whatever is drawn: after a step it is not beyond the
  -- margin of 40 pixels at any of the four sides. No number is taken to be below one that is below
  -- it.
  pub move_worker-IsWithin :
      (order : Order) (draw_x draw_y : Float) (w : Walker Float)
      → let w' = move_worker fl draw_x draw_y w in
        IsWithin (right_edge fl) w'.x × IsWithin (bottom_edge fl) w'.y
  unfolding move_worker
  move_worker-IsWithin order draw_x draw_y w = (
    bounced-IsWithin order (right_edge fl) _ _ order.right,
    bounced-IsWithin order (bottom_edge fl) _ _ order.bottom,
  )
