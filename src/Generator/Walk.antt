-- ===== src/Generator/Walk.antt =====
-- fastapi_generator/generators.py: `move_worker`, the random walk of a worker on the map.
pub mod Inside
pub mod Examples
use sen_sa.Prelude.{◌||◌, if◌then◌else◌}
use sen_sa.Prelude.Float.{FloatOps}
use sen_sa.Generator.Readings.{fmax, fmin}

pub record Walker (F : Type 0) : Type 0 where
  pub x : F
  pub y : F
  pub dx : F
  pub dy : F

module _ (fl : FloatOps) where
  open fl use {Float, flt, fadd, fsub, fmul, lit}

  abbrev pub negative : Float → Float
  negative a = fsub (lit 0 1) a

  -- `MARGIN`, `IMG_W - MARGIN` and `IMG_H - MARGIN`
  abbrev pub margin : Float
  margin = lit 40 1

  abbrev pub right_edge : Float
  right_edge = fsub (lit 1360 1) margin

  abbrev pub bottom_edge : Float
  bottom_edge = fsub (lit 960 1) margin

  -- `max(-4, min(4, v))` of the speed with a draw's push
  unfoldable pub pushed : (speed draw : Float) → Float
  pushed speed draw =
      fmax fl (negative (lit 4 1))
        (fmin fl (lit 4 1) (fadd speed (fmul (fsub draw (lit 5 10)) (lit 6 10))))

  -- One coordinate and its speed after a bounce at the edges.
  unfoldable pub bounced : (edge position speed : Float) → Float × Float
  bounced edge position speed =
      if flt position margin || flt edge position
      then (fmax fl margin (fmin fl edge position), negative speed)
      else (position, speed)

  -- The two draws push the worker along x and along y.
  unfoldable pub move_worker : (draw_x draw_y : Float) → Walker Float → Walker Float
  unfolding pushed bounced
  move_worker draw_x draw_y w =
      let dx = pushed w.dx draw_x in
      let dy = pushed w.dy draw_y in
      let (x', dx') = bounced right_edge (fadd w.x dx) dx in
      let (y', dy') = bounced bottom_edge (fadd w.y dy) dy in
      record { x = x'; y = y'; dx = dx'; dy = dy' }
