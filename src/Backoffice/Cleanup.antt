-- ===== src/Backoffice/Cleanup.antt =====
-- SenSa/backoffice/management/commands/cleanup_data.py: the command that applies the retention
-- policies. A table is a list of rows with the instant of their time field; `hasattr` of a field that
-- the models declare holds. A policy lasts at least a day, as its form requires, and the policies are
-- in the order of their targets, each target once. The log rows that lose their alarm are left out.
pub mod Sweep
pub mod Examples
use sen_sa.Prelude.{
  ℕ, ◌+◌, ◌*◌, Bool, true, false, not, ◌&&◌, ◌||◌, Option, none, some, List, [], ◌∷◌, String, ltb,
  select, length, if◌then◌else◌,
}
use sen_sa.Prelude.Text.{str_eq}

pub record Stamped : Type 0 where
  pub id : ℕ
  pub time : ℕ

pub record RetentionPolicy : Type 0 where
  pub target : String
  pub retention_days : ℕ
  pub is_active : Bool
  pub last_run_at : Option ℕ
  pub last_run_deleted : ℕ

abbrev pub Archive : Type 0
Archive = String → List Stamped

-- What is printed of a policy.
pub data Line : Type 0 where
  skipped : Line
  dry_run removed : ℕ → Line

-- The targets with a model; `audit_logs` has none yet.
unfoldable pub has_model : String → Bool
has_model target =
    str_eq target "sensor_data"
    || (str_eq target "worker_location"
        || (str_eq target "alarms" || str_eq target "notification_logs"))

-- The filter on the time, with `cutoff` on the other side
abbrev pub is_outdated : (now : ℕ) → RetentionPolicy → Stamped → Bool
is_outdated now policy row = ltb (row.time + policy.retention_days * 86400000000) now

-- `_resolve_qs`: the rows that a policy would delete.
unfoldable pub resolve_qs : (now : ℕ) → RetentionPolicy → Archive → Option (List Stamped)
resolve_qs now policy tables =
    if has_model policy.target
    then some (select (is_outdated now policy) (tables policy.target))
    else none

-- `target_qs.delete()`
abbrev pub delete_outdated : (now : ℕ) → RetentionPolicy → Archive → Archive
delete_outdated now policy tables target =
    if str_eq policy.target target
    then select (λ row. not (is_outdated now policy row)) (tables target)
    else tables target

-- The two filters of the policies; '' stands for every target.
unfoldable pub is_chosen : (only_target : String) → RetentionPolicy → Bool
is_chosen only_target policy =
    policy.is_active && (str_eq only_target "" || str_eq policy.target only_target)

-- What the loop has done to one policy.
pub record Turn : Type 0 where
  pub policy : RetentionPolicy
  pub tables : Archive
  pub deleted : ℕ
  pub line : Line

-- The body of the loop.
unfoldable pub apply_policy : (now : ℕ) → (dry : Bool) → RetentionPolicy → Archive → Turn
unfolding resolve_qs
apply_policy now dry policy tables = elim (resolve_qs now policy tables) [
  | none ↦ record { policy = policy; tables = tables; deleted = 0; line = skipped }
  | some rows ↦
      if dry
      then record { policy = policy; tables = tables; deleted = 0; line = dry_run (length rows) }
      else record {
        policy = record policy { last_run_at = some now; last_run_deleted = length rows };
        tables = delete_outdated now policy tables;
        deleted = length rows;
        line = removed (length rows);
      }
]

pub record Outcome : Type 0 where
  pub policies : List RetentionPolicy
  pub tables : Archive
  pub total_deleted : ℕ
  pub lines : List Line

-- `handle`
unfoldable pub cleanup_data :
    (now : ℕ) → (dry : Bool) → (only_target : String) → List RetentionPolicy → Archive → Outcome
unfolding apply_policy
cleanup_data now dry only_target [] tables = record {
  policies = [];
  tables = tables;
  total_deleted = 0;
  lines = [];
}
cleanup_data now dry only_target (policy ∷ rest) tables = elim (is_chosen only_target policy) [
  | false ↦
      let out = cleanup_data now dry only_target rest tables in
      record out { policies = policy ∷ out.policies }
  | true ↦
      let turn = apply_policy now dry policy tables in
      let out = cleanup_data now dry only_target rest turn.tables in
      record {
        policies = turn.policy ∷ out.policies;
        tables = out.tables;
        total_deleted = turn.deleted + out.total_deleted;
        lines = turn.line ∷ out.lines;
      }
]
