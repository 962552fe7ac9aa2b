-- ===== src/Backoffice/Backup/Tasks.antt =====
-- The tasks that back a table up and empty it.
use sen_sa.Prelude.{
  ℕ, ◌<◌, ◌≡◌, refl, true, not, none, some, List, [], ◌∷◌, ◌++◌, String, select, length,
}
use sen_sa.Prelude.Text.{eq_refl}
use sen_sa.Backoffice.Backup.{
  Row, BackupFile, Plant, Libraries, keep_backups, chunk_size, is_target, make_backup_filename,
  file_content, same_file, write_file, stream_backup_to_file, cleanup_old_backups, with_table,
  delete_loop, delete_all_data, create_audit, audit_async, run_init_with_backup,
}
use sen_sa.Backoffice.Backup.Deletion.{delete_loop-runs}

abbrev IsBefore : ℕ → BackupFile → Type 0
IsBefore now f = f.mtime < now

-- The file that a backup of the target writes.
abbrev pub saved_file : Libraries → Plant → (now : ℕ) (target : String) → BackupFile
saved_file lib plant now target = record {
  target = target;
  filename = make_backup_filename lib now target;
  content = file_content lib (plant.tables target);
  mtime = now;
}

-- What a backup leaves of the other files.
abbrev others_of : Libraries → Plant → (now : ℕ) (target : String) → List BackupFile
others_of lib plant now target =
    select (λ g. not (same_file (saved_file lib plant now target) g)) plant.files

-- The plant after the backup and the cleanup.
abbrev backed_up : Libraries → Plant → (now : ℕ) (target : String) → Plant
backed_up lib plant now target =
    (cleanup_old_backups lib keep_backups
      (record plant { files = saved_file lib plant now target ∷ others_of lib plant now target })
      target).0

module _ (lib : Libraries) (plant : Plant) (now : ℕ) (target : String) where
  -- What the task leaves where its deletion ends with `deleted` rows gone.
  abbrev emptied : List Row → Plant
  emptied between =
      with_table
        (with_table (backed_up lib plant now target) target (plant.tables target ++ between)) target
        []

  stream-known :
      is_target target ≡ true
      → stream_backup_to_file lib plant now target
        ≡ some (
          record plant { files = saved_file lib plant now target ∷ others_of lib plant now target },
          record {
            count = length (plant.tables target);
            filename = make_backup_filename lib now target;
          },
        )
  unfolding stream_backup_to_file write_file
  stream-known known = rw known refl

  -- While a row comes in every round, the task never ends and empties nothing: whatever the fuel,
  -- the deletion still runs.
  pub run_init_with_backup_endless :
      (user : String) (between : List Row) (arrivals : ℕ → List Row)
      → ((r : ℕ) → 0 < length (arrivals r))
      → 0 < length (plant.tables target ++ between)
      → is_target target ≡ true
      → (fuel : ℕ) → run_init_with_backup lib between arrivals fuel plant now target user ≡ none
  unfolding run_init_with_backup cleanup_old_backups audit_async create_audit delete_all_data
  run_init_with_backup_endless user between arrivals busy some_left known fuel =
      let p4 =
        with_table (backed_up lib plant now target) target (plant.tables target ++ between) in
      let runs : delete_loop chunk_size arrivals fuel 0 (p4.tables target) 0 ≡ none =
        rw (eq_refl target) (delete_loop-runs 4999 arrivals fuel 0 _ 0 busy some_left) in
      let never : delete_all_data arrivals fuel p4 target ≡ none =
        rw (known, runs, delete_all_data) refl in
      rw (stream-known known, run_init_with_backup, never, run_init_with_backup) refl
