-- ===== src/Geofence/Hull/Turns.antt =====
-- What the chains of the hull are made of, and how they turn.
use sen_sa.Prelude.{◌≡◌, refl, false, List, [], ◌∷◌, ◌++◌, arith, All, All-append}
use mathlib.Core.List.{reverse, reverse_aux}
use sen_sa.Prelude.Float.{FloatOps}
use sen_sa.Geofence.Hull.{
  Point, tail, insert_point, sorted_set, turns_right, pop_right, chain_from, hull_of_sorted,
  convex_hull,
}

module _ (fl : FloatOps) where
  open fl use {Float}

  -- Every three points in a row turn left; the newest stands first.
  abbrev pub TurnsLeft : List (Point fl) → Type 0
  TurnsLeft [] = Unit
  TurnsLeft (b ∷ []) = Unit
  TurnsLeft (c ∷ b ∷ []) = Unit
  TurnsLeft (c ∷ b ∷ a ∷ rest) = (turns_right fl a b c ≡ false) × TurnsLeft (b ∷ a ∷ rest)

  pop_right-TurnsLeft :
      (chain : List (Point fl)) (p : Point fl)
      → TurnsLeft chain
      → TurnsLeft (p ∷ pop_right fl chain p)
  unfolding pop_right
  pop_right-TurnsLeft [] p h = tt
  pop_right-TurnsLeft (b ∷ []) p h = tt
  pop_right-TurnsLeft (b ∷ a ∷ []) p h = ground arith
  pop_right-TurnsLeft (c ∷ b ∷ a ∷ rest) p (turn, h) =
      ground (arith, turn, h, pop_right-TurnsLeft (b ∷ a ∷ rest) p h)

  chain_from-TurnsLeft :
      (chain points : List (Point fl)) → TurnsLeft chain → TurnsLeft (chain_from fl chain points)
  unfolding chain_from
  chain_from-TurnsLeft chain [] h = h
  chain_from-TurnsLeft chain (p ∷ ps) h =
      chain_from-TurnsLeft (p ∷ pop_right fl chain p) ps (pop_right-TurnsLeft chain p h)

  module _ (P : Point fl → Type 0) where
    insert_point-All :
        (p : Point fl) (points : List (Point fl))
        → P p
        → All P points
        → All P (insert_point fl p points)
    unfolding insert_point
    insert_point-All p [] h hs = (h, tt)
    insert_point-All p (q ∷ qs) h hs = ground (arith, insert_point-All p qs h hs.1)

    sorted_set-All : (points : List (Point fl)) → All P points → All P (sorted_set fl points)
    unfolding sorted_set
    sorted_set-All [] hs = tt
    sorted_set-All (p ∷ ps) hs = insert_point-All p _ hs.0 (sorted_set-All ps hs.1)

    pop_right-All :
        (chain : List (Point fl)) (p : Point fl) → All P chain → All P (pop_right fl chain p)
    unfolding pop_right
    pop_right-All [] p h = h
    pop_right-All (b ∷ []) p h = h
    pop_right-All (b ∷ a ∷ rest) p h = ground (arith, pop_right-All (a ∷ rest) p h.1)

    chain_from-All :
        (chain points : List (Point fl))
        → All P chain
        → All P points
        → All P (chain_from fl chain points)
    unfolding chain_from
    chain_from-All chain [] h hs = h
    chain_from-All chain (p ∷ ps) h hs =
        chain_from-All (p ∷ pop_right fl chain p) ps (hs.0, pop_right-All chain p h) hs.1

    tail-All : (points : List (Point fl)) → All P points → All P (tail points)
    tail-All [] h = h
    tail-All (p ∷ ps) h = h.1

    reverse_aux-All :
        (points rest : List (Point fl))
        → All P points
        → All P rest
        → All P (reverse_aux points rest)
    reverse_aux-All [] rest h k = k
    reverse_aux-All (p ∷ ps) rest h k = reverse_aux-All ps (p ∷ rest) h.1 (h.0, k)

    reverse-All : (points : List (Point fl)) → All P points → All P (reverse points)
    reverse-All points h = reverse_aux-All points [] h tt

    hull_of_sorted-All :
        (points : List (Point fl)) → All P points → All P (hull_of_sorted fl points)
    unfolding hull_of_sorted
    hull_of_sorted-All [] h = h
    hull_of_sorted-All (p ∷ []) h = h
    hull_of_sorted-All (p ∷ q ∷ ps) h =
        All-append P _ _ (reverse-All _ (tail-All _ (chain_from-All [] _ tt h)))
          (reverse-All _ (tail-All _ (chain_from-All [] _ tt (reverse-All (p ∷ q ∷ ps) h))))

    -- What a hull is: points of which `P` holds, in two chains, joined without the last point of
    -- each, whose every corner turns left.
    abbrev pub IsHull : List (Point fl) → Type 0
    IsHull hull =
        All P hull
        × ((lower : List (Point fl)) × (upper : List (Point fl)) × TurnsLeft lower
            × TurnsLeft upper
            × (hull ≡ reverse (tail lower) ++ reverse (tail upper)))

    hull_of_sorted-IsHull :
        (points : List (Point fl)) → All P points → IsHull (hull_of_sorted fl points)
    unfolding hull_of_sorted
    hull_of_sorted-IsHull [] h = (h, ([], [], tt, tt, refl))
    hull_of_sorted-IsHull (p ∷ []) h = (h, (p ∷ p ∷ [], [], tt, tt, refl))
    hull_of_sorted-IsHull (p ∷ q ∷ ps) h = (
      hull_of_sorted-All (p ∷ q ∷ ps) h,
      (
        chain_from fl [] (p ∷ q ∷ ps),
        chain_from fl [] (reverse (p ∷ q ∷ ps)),
        chain_from-TurnsLeft [] (p ∷ q ∷ ps) tt,
        chain_from-TurnsLeft [] (reverse (p ∷ q ∷ ps)) tt,
        refl,
      ),
    )

    -- What holds of the given points holds of the hull's, and the hull is two chains, joined without
    -- the last point of each, where any three points in a row turn strictly left.
    pub convex_hull-IsHull :
        (points : List (Point fl)) → All P points → IsHull (convex_hull fl points)
    unfolding convex_hull
    convex_hull-IsHull points h =
        hull_of_sorted-IsHull (sorted_set fl points) (sorted_set-All points h)
