-- ===== src/Backoffice/Backup/Examples.antt =====
-- Tests of the backups, and the theorems on a small plant.
use sen_sa.Prelude.{
  ℕ, ◌+◌, ◌-◌, ◌==◌, if◌then◌else◌, ◌≤◌, ◌≡◌, refl, true, some, [], ◌∷◌, length, All,
}
use sen_sa.Backoffice.Backup.{
  Row, BackupFile, Plant, Libraries, inner, file_content, backups_of, outdated, cleanup_old_backups,
  delete_loop,
}
use sen_sa.Backoffice.Backup.Keeping.{IsOlder, cleanup_old_backups-IsKept}

abbrev lib : Libraries
lib = record {
  serialize = λ row. "[{}]";
  stamp = λ t. "1";
  globs = λ pattern name. true;
  audit_row = λ audit. record { id = audit.count; columns = audit.action };
}

abbrev row : ℕ → Row
row n = record { id = n; columns = "x" }

abbrev old_file : ℕ → BackupFile
old_file n = record {
  target = "alarms";
  filename = if n == 4 then "alarms_4.json.gz" else "alarms_5.json.gz";
  content = [];
  mtime = n;
}

abbrev plant : Plant
plant = record { tables = λ t. row 1 ∷ row 2 ∷ []; files = old_file 4 ∷ old_file 5 ∷ [] }

inner_of_one : inner "[{a}]" ≡ "{a}"
unfolding inner
inner_of_one = refl

two_rows : file_content lib (row 1 ∷ row 2 ∷ []) ≡ "[\n" ∷ "{}" ∷ ",\n" ∷ "{}" ∷ "\n]\n" ∷ []
unfolding file_content inner
two_rows = refl

chunks_of_one : delete_loop 1 (λ n. []) 3 0 (row 1 ∷ row 2 ∷ []) 0 ≡ some ([], 2)
unfolding delete_loop
chunks_of_one = refl

cleanup_old_backups-IsKept_example :
    let mine = backups_of lib "alarms" plant.files in
    let (after, deleted) = cleanup_old_backups lib 1 plant "alarms" in
    let left = backups_of lib "alarms" after.files in
    (length left ≤ 1)
    × All (λ g. All (IsOlder g) (outdated lib 1 "alarms" plant.files)) left
    × (deleted ≡ length mine - 1)
    × (length mine ≤ length left + deleted)
cleanup_old_backups-IsKept_example =
    cleanup_old_backups-IsKept lib 1 plant "alarms" ((refl, tt), (tt, tt))
