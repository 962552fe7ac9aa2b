-- ===== src/Geofence/Polygon/Examples.antt =====
-- A square and two points.
use sen_sa.Prelude.{ℕ, ◌≡◌, refl, true, List, [], ◌∷◌, ◌++◌}
use sen_sa.Prelude.Sample.{naturals}
use sen_sa.Geofence.Polygon.{point_in_polygon}

abbrev left : List (ℕ × ℕ)
left = (0, 0) ∷ (0, 10) ∷ []

abbrev right : List (ℕ × ℕ)
right = (10, 10) ∷ (10, 0) ∷ []

square_holds_its_centre : point_in_polygon naturals 5 5 (left ++ right) ≡ true
unfolding point_in_polygon sen_sa.Geofence.Polygon.crosses mathlib.Core.Bool.xor
square_holds_its_centre = refl
