-- ===== src/Devices/Neighbours.antt =====
-- SenSa/devices/neighbor_graph.py: the distances between the gas sensors, kept in the process from
-- the first question on until they are invalidated. A dict is a list of its entries in order. The
-- keys of a table are distinct, and `sort` is the insertion sort, which is stable like Python's.
pub mod Sorting
pub mod Loading
use sen_sa.Prelude.{
  ℕ, ◌+◌, Bool, true, false, ◌&&◌, Option, none, some, List, [], ◌∷◌, map, ◌==◌, select, length,
  if◌then◌else◌,
}
use sen_sa.Prelude.Float.{FloatOps}
use sen_sa.Prelude.Text.{str_eq}
use sen_sa.Geofence.Zone.{Device}

-- `d.get(key)`
abbrev pub lookup : {A : Type 0} → (key : ℕ) → List (ℕ × A) → Option A
lookup key [] = none
lookup key ((k, a) ∷ rest) = let found = lookup key rest in if k == key then some a else found

module _ (fl : FloatOps) where
  open fl use {Float, flt, fle, fadd, fsub, fmul, fsqrt}

  abbrev pub Edges : Type 0
  Edges = List (ℕ × Float)

  -- `_cache_loaded` and `_cache`
  pub record Cache : Type 0 where
    pub loaded : Bool
    pub edges : List (ℕ × Edges)

  abbrev pub is_gas_sensor : Device Float → Bool
  is_gas_sensor d = str_eq d.sensor_type "gas" && d.is_active

  unfoldable pub distance : Device Float → Device Float → Float
  distance d1 d2 =
      let dx : Float = fsub d1.x d2.x in
      let dy : Float = fsub d1.y d2.y in fsqrt (fadd (fmul dx dx) (fmul dy dy))

  unfoldable pub edges_from : Device Float → List (Device Float) → Edges
  edges_from d1 [] = []
  edges_from d1 (d2 ∷ rest) =
      let others = edges_from d1 rest in
      if d1.id == d2.id then others else (d2.id, distance d1 d2) ∷ others

  abbrev pub gas_sensors : List (Device Float) → List (Device Float)
  gas_sensors table = select is_gas_sensor table

  unfoldable pub load_cache : List (Device Float) → Cache
  load_cache table = record {
    loaded = true;
    edges =
        map (λ (d : Device Float). (d.id, edges_from d (gas_sensors table))) (gas_sensors table);
  }

  unfoldable pub ensure_loaded : List (Device Float) → Cache → Cache
  ensure_loaded table c = if c.loaded then c else load_cache table

  unfoldable pub invalidate_neighbor_cache : Cache → Cache
  invalidate_neighbor_cache c = record { loaded = false; edges = [] }

  -- `_cache.get(source_id, {})`
  abbrev pub edges_of : Cache → (source : ℕ) → Edges
  edges_of c source = elim (lookup source c.edges) [ none ↦ [] | some edges ↦ edges ]

  unfoldable pub get_distance :
      List (Device Float) → Cache → (source target : ℕ) → Cache × Option Float
  get_distance table c source target =
      let c' : Cache = ensure_loaded table c in (c', lookup target (edges_of c' source))

  unfoldable pub insert : ℕ × Float → Edges → Edges
  insert e [] = e ∷ []
  insert e (f ∷ rest) = let later = insert e rest in if flt f.1 e.1 then f ∷ later else e ∷ f ∷ rest

  unfoldable pub sort : Edges → Edges
  sort [] = []
  sort (e ∷ rest) = insert e (sort rest)

  abbrev pub is_within : Float → ℕ × Float → Bool
  is_within radius e = fle e.1 radius

  unfoldable pub get_neighbors_within :
      List (Device Float) → Cache → (source : ℕ) (radius : Float) → Cache × Edges
  get_neighbors_within table c source radius =
      let c' : Cache = ensure_loaded table c in
      (c', sort (select (is_within radius) (edges_of c' source)))

  abbrev pub by_id : List (Device Float) → List (ℕ × Device Float)
  by_id table = map (λ (d : Device Float). (d.id, d)) table

  unfoldable pub devices_of : List (Device Float) → Edges → List (Device Float × Float)
  devices_of table [] = []
  devices_of table ((target, dist) ∷ rest) = elim (lookup target (by_id table)) [
    | none ↦ devices_of table rest
    | some d ↦ (d, dist) ∷ devices_of table rest
  ]

  unfoldable pub get_neighbors_within_devices :
      List (Device Float)
      → Cache
      → (source : ℕ) (radius : Float) → Cache × List (Device Float × Float)
  get_neighbors_within_devices table c source radius =
      let (c', within) = get_neighbors_within table c source radius in (c', devices_of table within)

  abbrev pub total_edges : List (ℕ × Edges) → ℕ
  total_edges [] = 0
  total_edges ((k, edges) ∷ rest) = length edges + total_edges rest

  -- `loaded`, `source_count` and `total_edges`
  unfoldable pub cache_stats : Cache → Bool × ℕ × ℕ
  cache_stats c = (c.loaded, length c.edges, total_edges c.edges)
