-- ===== src/Generator/Worst.antt =====
-- fastapi_generator/generators.py: the thresholds that the generator keeps, `apply_thresholds`, which
-- takes them over from the back office, and `identify_worst_gas`, which names the gas of a reading in
-- the details of its alarm. A dict is a list in the order of its keys, and each gas has a value. The
-- texts of the back office are read by `float` before they come here.
pub mod Agreement
pub mod Examples
use sen_sa.Prelude.{ℕ, suc, Option, none, some, List, [], ◌∷◌, ◌++◌, String, if◌then◌else◌}
use sen_sa.Prelude.Float.{FloatOps}
use sen_sa.Prelude.Text.{str_eq, strip_prefix}
use sen_sa.Generator.Readings.{fmax}

-- The two operators of a threshold.
pub data Operator : Type 0 where
  over under : Operator

abbrev pub operator_of : String → Option Operator
operator_of s = if str_eq s "over" then some over else if str_eq s "under" then some under else none

pub record Limit (F : Type 0) : Type 0 where
  pub operator : Operator
  pub caution : F
  pub danger : F

-- `GAS_THRESHOLDS`
abbrev pub Limits : Type 0 → Type 0
Limits F = String → Option (Limit F)

-- One entry of `loaded['flat']`; an `item_code` that is missing is ''.
pub record Entry (F : Type 0) : Type 0 where
  pub item_code : String
  pub operator : String
  pub caution : Option F
  pub danger : Option F

-- The limit of an entry that is complete.
abbrev pub limit_of : {F : Type 0} → Entry F → Option (Limit F)
limit_of entry = elim (operator_of entry.operator) [
  | none ↦ none
  | some op ↦ elim entry.caution [
    | none ↦ none
    | some c ↦ elim entry.danger [
      | none ↦ none
      | some d ↦ some (record { operator = op; caution = c; danger = d })
    ]
  ]
]

abbrev pub with_limit : {F : Type 0} → Limits F → String → Limit F → Limits F
with_limit limits code limit key = if str_eq key code then some limit else limits key

-- The loop over the entries, with the number of those that are taken over.
unfoldable pub apply_entries : {F : Type 0} → List (String × Entry F) → Limits F → Limits F × ℕ
apply_entries [] limits = (limits, 0)
apply_entries ((key, entry) ∷ rest) limits = elim (strip_prefix "TH_GAS." key) [
  | none ↦ apply_entries rest limits
  | some tail ↦ elim (limit_of entry) [
    | none ↦ apply_entries rest limits
    | some limit ↦
        let code = if str_eq entry.item_code "" then tail else entry.item_code in
        let (after, n) = apply_entries rest (with_limit limits code limit) in (after, suc n)
  ]
]

-- `none` is an answer that could not be loaded.
unfoldable pub apply_thresholds :
    {F : Type 0} → Option (List (String × Entry F)) → Limits F → Limits F × ℕ
unfolding apply_entries
apply_thresholds none limits = (limits, 0)
apply_thresholds (some flat) limits = apply_entries flat limits

module _ (fl : FloatOps) where
  open fl use {Float, flt, fsub, fdiv, lit}

  abbrev pub limit : Operator → Float → Float → Option (Limit Float)
  limit op c d = some (record { operator = op; caution = c; danger = d })

  -- The thresholds of the module, before any others are taken over.
  unfoldable pub gas_limits : Limits Float
  gas_limits key =
      if str_eq key "co"
      then limit over (lit 25 1) (lit 200 1)
      else if str_eq key "h2s"
      then limit over (lit 10 1) (lit 50 1)
      else if str_eq key "co2"
      then limit over (lit 1000 1) (lit 5000 1)
      else if str_eq key "o2"
      then limit under (lit 18 1) (lit 16 1)
      else if str_eq key "o2_high"
      then limit over (lit 215 10) (lit 235 10)
      else if str_eq key "no2"
      then limit over (lit 3 1) (lit 5 1)
      else if str_eq key "so2"
      then limit over (lit 2 1) (lit 5 1)
      else if str_eq key "o3"
      then limit over (lit 5 100) (lit 1 10)
      else if str_eq key "nh3"
      then limit over (lit 25 1) (lit 50 1)
      else if str_eq key "voc"
      then limit over (lit 5 10) (lit 2 1)
      else none

  abbrev pub listed : Option (Limit Float) → List (Limit Float)
  listed none = []
  listed (some l) = l ∷ []

  -- `candidates`
  abbrev pub candidates : Limits Float → String → List (Limit Float)
  candidates limits key =
      if str_eq key "o2"
      then listed (limits key) ++ listed (limits "o2_high")
      else listed (limits key)

  -- The score, `none` where the loop goes on to the next candidate.
  unfoldable pub score_by : Operator → (caution danger v : Float) → Option Float
  score_by over caution danger v =
      if flt v caution
      then none
      else some (fdiv (fsub v caution) (fmax fl (fsub danger caution) (lit 1 1000)))
  score_by under caution danger v =
      if flt caution v
      then none
      else some (fdiv (fsub caution v) (fmax fl (fsub caution danger) (lit 1 1000)))

  -- The worst so far: its score, and its key and value.
  pub record Worst : Type 0 where
    pub score : Float
    pub named : Option (String × Float)

  unfoldable pub weigh : (key : String) → (v : Float) → List (Limit Float) → Worst → Worst
  unfolding score_by
  weigh key v [] worst = worst
  weigh key v (l ∷ rest) worst = weigh key v rest (elim (score_by l.operator l.caution l.danger v) [
    | none ↦ worst
    | some score ↦
        if flt worst.score score then record { score = score; named = some (key, v) } else worst
  ])

  unfoldable pub worst_from : Limits Float → List (String × Float) → Worst → Worst
  worst_from limits [] worst = worst
  worst_from limits ((key, v) ∷ rest) worst =
      worst_from limits rest (weigh key v (candidates limits key) worst)

  -- The key and the value of the worst gas; its label is the key in capitals.
  unfoldable pub identify_worst_gas : Limits Float → List (String × Float) → Option (String × Float)
  unfolding worst_from
  identify_worst_gas limits gas =
      (worst_from limits gas (record { score = fsub (lit 0 1) (lit 1 1); named = none })).named
