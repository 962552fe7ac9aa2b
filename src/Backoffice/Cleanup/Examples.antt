-- ===== src/Backoffice/Cleanup/Examples.antt =====
-- Two policies at the instant 10^12: readings of ten days and audit rows, which have no model yet.
use sen_sa.Prelude.{◌≡◌, refl, true, false, none, List, [], ◌∷◌}
use sen_sa.Backoffice.Cleanup.{
  RetentionPolicy, Archive, dry_run, removed, skipped, has_model, is_chosen, cleanup_data,
}
use sen_sa.Backoffice.Cleanup.Sweep.{cleanup_data-kept}

abbrev policies : List RetentionPolicy
policies =
    record {
      target = "audit_logs";
      retention_days = 1;
      is_active = true;
      last_run_at = none;
      last_run_deleted = 0;
    }
    ∷ record {
      target = "sensor_data";
      retention_days = 10;
      is_active = true;
      last_run_at = none;
      last_run_deleted = 0;
    }
    ∷ []

-- The second row is exactly at the cutoff.
abbrev archive : Archive
archive target =
    record { id = 1; time = 135999999999 } ∷ record { id = 2; time = 136000000000 } ∷ []

lines_of_run :
    (cleanup_data 1000000000000 false "" policies archive).lines ≡ skipped ∷ removed 1 ∷ []
unfolding cleanup_data is_chosen has_model
lines_of_run = refl

lines_of_dry :
    (cleanup_data 1000000000000 true "" policies archive).lines ≡ skipped ∷ dry_run 1 ∷ []
unfolding cleanup_data is_chosen has_model
lines_of_dry = refl

lines_of_other : (cleanup_data 1000000000000 false "alarms" policies archive).lines ≡ []
unfolding cleanup_data is_chosen has_model
lines_of_other = refl

cleanup_data-kept_example :
    (cleanup_data 1000000000000 false "" policies archive).tables "sensor_data"
    ≡ record { id = 2; time = 136000000000 } ∷ []
unfolding cleanup_data is_chosen has_model
cleanup_data-kept_example = cleanup_data-kept 1000000000000 "" policies archive "sensor_data"
