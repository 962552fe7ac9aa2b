-- ===== src/Devices/Gate.antt =====
-- Django's cache as SenSa/devices/views.py and SenSa/geofence/auto_trigger.py call it. The cache is a
-- service: what it answers is a parameter, a function of all that was asked of it before, and `none`
-- stands for an exception. Time is in microseconds.
use sen_sa.Prelude.{ℕ, Bool, true, Option, none, some, List, ◌∷◌, String, leb, if◌then◌else◌}

-- A call of `cache.add(key, 1, interval)`.
pub record Addition : Type 0 where
  pub at : ℕ
  pub key : String
  pub interval : ℕ

-- `asked` are the additions so far, the newest first.
pub record Cache : Type 0 where
  pub asked : List Addition
  pub answer_add : List Addition → Option Bool
  pub answer_get : List Addition → (now : ℕ) (key : String) → Option Bool

-- Whether `cache.get(key)` is true.
abbrev pub holds_key : Cache → ℕ → String → Option Bool
holds_key c now key = c.answer_get c.asked now key

abbrev pub asked_to_add : Cache → ℕ → String → (interval : ℕ) → Cache
asked_to_add c now key interval = record c {
  asked = record { at = now; key = key; interval = interval } ∷ c.asked;
}

-- `cache.add(key, 1, interval)`, and `fallback` where its exception is caught
unfoldable pub add : Cache → ℕ → String → (interval : ℕ) → (fallback : Bool) → Cache × Bool
add c now key interval fallback =
    let c' = asked_to_add c now key interval in
    elim (c.answer_add c'.asked) [ none ↦ (c', fallback) | some added ↦ (c', added) ]

-- `_should_persist`; `interval` is `DB_SAVE_INTERVAL_SEC`
unfoldable pub should_persist : Cache → ℕ → (interval : ℕ) → (key : String) → Cache × Bool
should_persist c now interval key =
    if leb interval 0 then (c, true) else add c now key interval true
