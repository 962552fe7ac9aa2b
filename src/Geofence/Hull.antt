-- ===== src/Geofence/Hull.antt =====
-- SenSa/geofence/polygon_utils.py: circles and convex hulls. `sorted(set(points))` is an insertion
-- into an ascending list without repetitions.
pub mod Turns
use sen_sa.Prelude.{ℕ, zero, suc, ◌+◌, Bool, ◌&&◌, ◌||◌, List, [], ◌∷◌, ◌++◌, map, if◌then◌else◌}
use mathlib.Core.List.{reverse}
use sen_sa.Prelude.Float.{FloatOps}

abbrev pub circle_polygon_points : ℕ
circle_polygon_points = 16

abbrev pub arc_points_per_center : ℕ
arc_points_per_center = 12

abbrev pub range_from : ℕ → ℕ → List ℕ
range_from i zero = []
range_from i (suc n) = i ∷ range_from (i + 1) n

-- `range(n)`
abbrev pub range : ℕ → List ℕ
range n = range_from 0 n

abbrev pub tail : {A : Type 0} → List A → List A
tail [] = []
tail (x ∷ xs) = xs

module _ (fl : FloatOps) where
  open fl use {Float, flt, fle, feq, fadd, fsub, fmul, fdiv, lit, fround, fcos, fsin, fpi}

  abbrev pub Point : Type 0
  Point = Float × Float

  -- The point at step `i` of `n` around a centre.
  abbrev pub around : Point → (radius : Float) → (n i : ℕ) → Point
  around c radius n i =
      let angle : Float = fdiv (fmul (fmul (lit 2 1) fpi) (lit i 1)) (lit n 1) in
      (fadd c.0 (fmul radius (fcos angle)), fadd c.1 (fmul radius (fsin angle)))

  abbrev pub rounded : Point → Point
  rounded p = (fround p.0 2, fround p.1 2)

  unfoldable pub circle_polygon : (cx cy radius : Float) → (n_points : ℕ) → List Point
  circle_polygon cx cy radius n_points =
      map (λ i. rounded (around (cx, cy) radius n_points i)) (range n_points)

  unfoldable pub arc_points_around : Point → (radius : Float) → (n : ℕ) → List Point
  arc_points_around c radius n = map (around c radius n) (range n)

  -- Python's order on pairs
  abbrev pub before : Point → Point → Bool
  before p q = flt p.0 q.0 || feq p.0 q.0 && flt p.1 q.1

  abbrev pub same_point : Point → Point → Bool
  same_point p q = feq p.0 q.0 && feq p.1 q.1

  unfoldable pub insert_point : Point → List Point → List Point
  insert_point p [] = p ∷ []
  insert_point p (q ∷ qs) =
      let rest = insert_point p qs in
      if same_point p q then q ∷ qs else if before p q then p ∷ q ∷ qs else q ∷ rest

  unfoldable pub sorted_set : List Point → List Point
  sorted_set [] = []
  sorted_set (p ∷ ps) = insert_point p (sorted_set ps)

  unfoldable pub cross : Point → Point → Point → Float
  cross o a b = fsub (fmul (fsub a.0 o.0) (fsub b.1 o.1)) (fmul (fsub a.1 o.1) (fsub b.0 o.0))

  -- The last two points of a chain, the newest first, and a new one do not turn left.
  abbrev pub turns_right : Point → Point → Point → Bool
  turns_right a b p = fle (cross a b p) (lit 0 1)

  -- The `while` loop: a chain is kept with its newest point first.
  unfoldable pub pop_right : List Point → Point → List Point
  pop_right [] p = []
  pop_right (b ∷ []) p = b ∷ []
  pop_right (b ∷ a ∷ rest) p =
      let popped = pop_right (a ∷ rest) p in if turns_right a b p then popped else b ∷ a ∷ rest

  unfoldable pub chain_from : List Point → List Point → List Point
  chain_from chain [] = chain
  chain_from chain (p ∷ ps) = chain_from (p ∷ pop_right chain p) ps

  -- `lower[:-1] + upper[:-1]` of the two chains
  unfoldable pub hull_of_sorted : List Point → List Point
  hull_of_sorted [] = []
  hull_of_sorted (p ∷ []) = p ∷ []
  hull_of_sorted (p ∷ q ∷ ps) =
      reverse (tail (chain_from [] (p ∷ q ∷ ps)))
      ++ reverse (tail (chain_from [] (reverse (p ∷ q ∷ ps))))

  unfoldable pub convex_hull : List Point → List Point
  convex_hull points = hull_of_sorted (sorted_set points)

  unfoldable pub arcs : (radius : Float) → List Point → List Point
  arcs radius [] = []
  arcs radius (c ∷ cs) = arc_points_around c radius arc_points_per_center ++ arcs radius cs

  unfoldable pub hull_with_margin : List Point → (margin_radius : Float) → List Point
  hull_with_margin [] margin_radius = []
  hull_with_margin (c ∷ cs) margin_radius = map rounded (convex_hull (arcs margin_radius (c ∷ cs)))

  unfoldable pub build_zone_polygon : List Point → (radius : Float) → List Point
  build_zone_polygon (c ∷ []) radius = circle_polygon c.0 c.1 radius circle_polygon_points
  build_zone_polygon centers radius = hull_with_margin centers radius
