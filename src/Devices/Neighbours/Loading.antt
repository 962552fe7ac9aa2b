-- ===== src/Devices/Neighbours/Loading.antt =====
-- What the kept distances answer.
use sen_sa.Prelude.{
  ℕ, ◌≡◌, refl, ◌∙◌, ap, Bool, true, false, not, ◌&&◌, none, some, List, [], ◌∷◌, map, arith, any,
  select, ◌==◌,
}
use sen_sa.Prelude.Float.{FloatOps}
use sen_sa.Geofence.Zone.{Device}
use sen_sa.Devices.Neighbours.{
  Cache, by_id, distance, edges_from, edges_of, ensure_loaded, gas_sensors, get_neighbors_within,
  is_within, load_cache, lookup,
}
use sen_sa.Devices.Neighbours.Sorting.{IsSorted, sort-IsSorted, any-sort}

module _ (fl : FloatOps) where
  open fl use {Float, flt, fle}

  lookup-map :
      {A : Type 0} (f : Device Float → A) (key : ℕ) (table : List (Device Float))
      → lookup key (map (λ (d : Device Float). (d.id, f d)) table)
        ≡ elim (lookup key (by_id fl table)) [ none ↦ none | some d ↦ some (f d) ]
  lookup-map f key [] = refl
  lookup-map f key (d ∷ rest) = ground (arith, lookup-map f key rest)

  -- Another sensor than the source, no further than the radius, of which `p` holds.
  abbrev pub is_neighbour :
      Device Float → (radius : Float) → (ℕ × Float → Bool) → Device Float → Bool
  is_neighbour source radius p d =
      not (source.id == d.id) && fle (distance fl source d) radius && p (d.id, distance fl source d)

  any-edges_from :
      (source : Device Float) (radius : Float) (p : ℕ × Float → Bool) (table : List (Device Float))
      → any p (select (is_within fl radius) (edges_from fl source table))
        ≡ any (is_neighbour source radius p) table
  unfolding edges_from
  any-edges_from source radius p [] = refl
  any-edges_from source radius p (d ∷ rest) = ground (arith, any-edges_from source radius p rest)

  edges_of-load_cache :
      (table : List (Device Float)) (source : Device Float)
      → lookup source.id (by_id fl (gas_sensors fl table)) ≡ some source
      → edges_of fl (load_cache fl table) source.id ≡ edges_from fl source (gas_sensors fl table)
  unfolding load_cache
  edges_of-load_cache table source found = ground (
    arith,
    found,
    lookup-map (λ d. edges_from fl d (gas_sensors fl table)) source.id (gas_sensors fl table),
  )

  -- The first question about an active gas sensor finds the other active gas sensors that are no
  -- further than the radius, the nearest first; and it fixes the answer: asked again, whatever the
  -- table has become, it is the same. `p` ranges over all tests of an entry, and the order of the
  -- floats is taken to be asymmetric.
  pub get_neighbors_within_complete :
      (asymmetric : (a b : Float) → flt a b ≡ true → flt b a ≡ false)
      → (table later : List (Device Float)) (c : Cache fl) (source : Device Float) (radius : Float)
      → (p : ℕ × Float → Bool) → c.loaded ≡ false
      → lookup source.id (by_id fl (gas_sensors fl table)) ≡ some source
      → let (c', within) = get_neighbors_within fl table c source.id radius in
        IsSorted fl within
        × (any p within ≡ any (is_neighbour source radius p) (gas_sensors fl table))
        × (get_neighbors_within fl later c' source.id radius ≡ (c', within))
  unfolding get_neighbors_within ensure_loaded load_cache
  get_neighbors_within_complete asymmetric table later c source radius p cold found = (
    sort-IsSorted fl asymmetric _,
    rw cold (
        any-sort fl p _
        ∙ ap (λ edges. any p (select (is_within fl radius) edges))
            (edges_of-load_cache table source found)
        ∙ any-edges_from source radius p (gas_sensors fl table)),
    rw cold refl,
  )
