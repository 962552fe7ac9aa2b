-- ===== src/Devices/Neighbours/Sorting.antt =====
-- What the sorting of the neighbours keeps.
use sen_sa.Prelude.{ℕ, ◌≡◌, refl, ◌∙◌, ap, Bool, true, false, ◌||◌, [], ◌∷◌, arith, any}
use sen_sa.Prelude.Float.{FloatOps}
use sen_sa.Devices.Neighbours.{Edges, insert, sort}

module _ (fl : FloatOps) where
  open fl use {Float, flt}

  -- No entry is nearer than the one before it.
  abbrev pub IsSorted : Edges fl → Type 0
  IsSorted [] = Unit
  IsSorted (e ∷ []) = Unit
  IsSorted (e ∷ f ∷ rest) = (flt f.1 e.1 ≡ false) × IsSorted (f ∷ rest)

  module _ (asymmetric : (a b : Float) → flt a b ≡ true → flt b a ≡ false) where
    insert-IsSorted :
        (e : ℕ × Float) (edges : Edges fl) → IsSorted edges → IsSorted (insert fl e edges)
    unfolding insert
    insert-IsSorted e [] h = tt
    insert-IsSorted e (f ∷ []) h = ground (arith, asymmetric f.1 e.1)
    insert-IsSorted e (f ∷ g ∷ rest) h =
        ground (arith, asymmetric f.1 e.1, insert-IsSorted e (g ∷ rest) h.1)

    pub sort-IsSorted : (edges : Edges fl) → IsSorted (sort fl edges)
    unfolding sort
    sort-IsSorted [] = tt
    sort-IsSorted (e ∷ rest) = insert-IsSorted e (sort fl rest) (sort-IsSorted rest)

  any-insert :
      (p : ℕ × Float → Bool) (e : ℕ × Float) (edges : Edges fl)
      → any p (insert fl e edges) ≡ (p e || any p edges)
  unfolding insert
  any-insert p e [] = refl
  any-insert p e (f ∷ rest) = ground (arith, any-insert p e rest)

  pub any-sort : (p : ℕ × Float → Bool) (edges : Edges fl) → any p (sort fl edges) ≡ any p edges
  unfolding sort
  any-sort p [] = refl
  any-sort p (e ∷ rest) = any-insert p e (sort fl rest) ∙ ap (λ b. p e || b) (any-sort p rest)
