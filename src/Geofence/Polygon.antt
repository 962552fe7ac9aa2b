-- ===== src/Geofence/Polygon.antt =====
-- SenSa/geofence/services.py: ray casting.
pub mod Examples
use mathlib.Core.Bool.{xor}
use mathlib.Core.Path.{ap₂}
use mathlib.Core.List.{append-nil}
use sen_sa.Prelude.{
  ℕ, ◌≡◌, refl, Bool, true, false, not, ◌&&◌, List, [], ◌∷◌, ◌++◌, arith, ltb, length, All,
  if◌then◌else◌, ◌∙◌, sym, ap, length-append,
}
use sen_sa.Prelude.Float.{FloatOps}

module _ (fl : FloatOps) where
  open fl use {Float, flt, fadd, fsub, fmul, fdiv}

  -- Does the ray from (x, y) to the right cross the edge from `pj` to `pi`?
  unfoldable pub crosses : Float → Float → Float × Float → Float × Float → Bool
  crosses x y (xi, yi) (xj, yj) =
      xor (flt y yi) (flt y yj)
      && flt x (fadd (fdiv (fmul (fsub xj xi) (fsub y yi)) (fsub yj yi)) xi)

  -- The loop over `i`; `pj` is the vertex at `j`, the one before.
  pub ray : Float → Float → Float × Float → List (Float × Float) → Bool → Bool
  ray x y pj [] inside = inside
  ray x y pj (pi ∷ vertices) inside =
      ray x y pi vertices (if crosses x y pi pj then not inside else inside)

  -- `polygon[-1]`, with the value before the list where that is empty
  abbrev pub last : Float × Float → List (Float × Float) → Float × Float
  last p [] = p
  last p (q ∷ vertices) = last q vertices

  from_last : Float → Float → List (Float × Float) → Bool
  unfolding ray
  from_last x y [] = false
  from_last x y (p ∷ vertices) = ray x y (last p vertices) (p ∷ vertices) false

  unfoldable pub point_in_polygon : Float → Float → List (Float × Float) → Bool
  unfolding from_last
  point_in_polygon x y polygon = if ltb (length polygon) 3 then false else from_last x y polygon

  last-append :
      (p q : Float × Float) (xs ys : List (Float × Float)) → last p (xs ++ q ∷ ys) ≡ last q ys
  last-append p q [] ys = refl
  last-append p q (x ∷ xs) ys = last-append x q xs ys

  -- A walk in two parts.
  ray-append :
      (x y : Float) (p : Float × Float) (xs ys : List (Float × Float)) (b : Bool)
      → ray x y p (xs ++ ys) b ≡ ray x y (last p xs) ys (ray x y p xs b)
  unfolding ray
  ray-append x y p [] ys b = refl
  ray-append x y p (q ∷ xs) ys b = ray-append x y q xs ys (if crosses x y q p then not b else b)

  xor_comm : (a b : Bool) → xor a b ≡ xor b a
  unfolding xor
  xor_comm a b = ground arith

  -- A walk adds the parity of its crossings to what it starts from.
  ray_parity :
      (x y : Float) (p : Float × Float) (xs : List (Float × Float)) (b : Bool)
      → ray x y p xs b ≡ xor b (ray x y p xs false)
  unfolding ray xor
  ray_parity x y p [] b = ground arith
  ray_parity x y p (q ∷ xs) b = ground (
    arith,
    ray_parity x y q xs (if crosses x y q p then not b else b),
    ray_parity x y q xs (if crosses x y q p then true else false),
  )

  -- The two parts of a walk may change places.
  ray_swap :
      (x y : Float) (p q : Float × Float) (xs ys : List (Float × Float))
      → ray x y p ys (ray x y q xs false) ≡ ray x y q xs (ray x y p ys false)
  ray_swap x y p q xs ys = ray_parity x y p ys _ ∙ xor_comm _ _ ∙ sym (ray_parity x y q xs _)

  from_last-append :
      (x y : Float) (p q : Float × Float) (xs ys : List (Float × Float))
      → from_last x y ((p ∷ xs) ++ q ∷ ys)
        ≡ ray x y (last p xs) (q ∷ ys) (ray x y (last q ys) (p ∷ xs) false)
  unfolding from_last
  from_last-append x y p q xs ys =
      ap (λ r. ray x y r ((p ∷ xs) ++ q ∷ ys) false) (last-append p q xs ys)
      ∙ ray-append x y (last q ys) (p ∷ xs) (q ∷ ys) false

  -- It does not matter at which vertex a polygon's list of vertices starts.
  pub point_in_polygon-rotate :
      (x y : Float) (xs ys : List (Float × Float))
      → point_in_polygon x y (xs ++ ys) ≡ point_in_polygon x y (ys ++ xs)
  unfolding point_in_polygon
  point_in_polygon-rotate x y [] ys = rw append-nil
  point_in_polygon-rotate x y (p ∷ xs) [] = rw append-nil
  point_in_polygon-rotate x y (p ∷ xs) (q ∷ ys) =
      ap₂ (λ (n : ℕ) b. if ltb n 3 then false else b)
        (omega (arith, length-append {0} (p ∷ xs) (q ∷ ys), length-append {0} (q ∷ ys) (p ∷ xs)))
        (from_last-append x y p q xs ys
          ∙ ray_swap x y (last p xs) (last q ys) (p ∷ xs) (q ∷ ys)
          ∙ sym (from_last-append x y q p ys xs))

  -- All vertices lie strictly above `y`, or none does.
  abbrev pub OnOneSide : Float → Bool → List (Float × Float) → Type 0
  OnOneSide y above = All (λ (p : Float × Float). flt y p.1 ≡ above)

  OnOneSide-last :
      (y : Float) (above : Bool) (p : Float × Float) (xs : List (Float × Float))
      → flt y p.1 ≡ above
      → OnOneSide y above xs
      → flt y (last p xs).1 ≡ above
  OnOneSide-last y above p [] h hs = h
  OnOneSide-last y above p (q ∷ xs) h hs = OnOneSide-last y above q xs hs.0 hs.1

  crosses-OnOneSide :
      (x y : Float) (above : Bool) (p q : Float × Float)
      → flt y p.1 ≡ above
      → flt y q.1 ≡ above
      → crosses x y p q ≡ false
  unfolding crosses xor
  crosses-OnOneSide x y above p q hp hq = ground arith

  ray-OnOneSide :
      (x y : Float) (above : Bool) (p : Float × Float) (xs : List (Float × Float)) (b : Bool)
      → flt y p.1 ≡ above
      → OnOneSide y above xs
      → ray x y p xs b ≡ b
  unfolding ray
  ray-OnOneSide x y above p [] b h hs = refl
  ray-OnOneSide x y above p (q ∷ xs) b h hs =
      rw (crosses-OnOneSide x y above q p hs.0 h) (ray-OnOneSide x y above q xs b hs.0 hs.1)

  -- A point whose horizontal line has all the vertices on one side is outside.
  pub point_in_polygon-OnOneSide :
      (x y : Float) (above : Bool) (polygon : List (Float × Float))
      → OnOneSide y above polygon
      → point_in_polygon x y polygon ≡ false
  unfolding point_in_polygon from_last
  point_in_polygon-OnOneSide x y above [] h = refl
  point_in_polygon-OnOneSide x y above (p ∷ xs) h = ground (
    arith,
    ray-OnOneSide x y above (last p xs) (p ∷ xs) false (OnOneSide-last y above p xs h.0 h.1) h,
  )
