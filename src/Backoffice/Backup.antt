-- ===== src/Backoffice/Backup.antt =====
-- SenSa/backoffice/utils/backup.py with the tasks of SenSa/backoffice/tasks.py that call it: backups
-- of a table as files, the files that are kept, and a table that is emptied in chunks. Django's
-- serializer, `strftime` and the globs of pathlib are parameters. A file is the list of the texts
-- that are written to it; its compression is left out. What other processes insert while a table is
-- emptied is an argument: the rows that arrive in each round. Deleting a row of these tables takes
-- no other row with it.
pub mod Deletion
pub mod Keeping
pub mod Tasks
pub mod Examples
use sen_sa.Prelude.{
  ℕ, zero, suc, ◌+◌, ◌-◌, Bool, true, false, not, ◌&&◌, ◌||◌, Option, none, some, List, [], ◌∷◌,
  ◌++◌, map, String, leb, ◌==◌, any, select, take, length, if◌then◌else◌,
}
use sen_sa.Prelude.Text.{str_eq, ◌++◌ as ◌<>◌}

-- A row, as far as a backup reads it: its key and the other columns.
pub record Row : Type 0 where
  pub id : ℕ
  pub columns : String

pub record BackupFile : Type 0 where
  pub target : String
  pub filename : String
  pub content : List String
  pub mtime : ℕ

-- What `AuditLog.objects.create` is given; `target_pk` may not be null in the table.
pub record Audit : Type 0 where
  pub action : String
  pub actor_username : String
  pub target_repr : String
  pub target_pk : Option String
  pub count : ℕ

-- The tables by their targets; that of `AuditLog` is audit_logs.
pub record Plant : Type 0 where
  pub tables : String → List Row
  pub files : List BackupFile

-- `serializers.serialize('json', [obj])`, `strftime('%Y%m%d_%H%M%S')`, `Path.glob` on the name of one
-- file, and the row that the ORM makes of an audit with its key
pub record Libraries : Type 0 where
  pub serialize : Row → String
  pub stamp : ℕ → String
  pub globs : (pattern filename : String) → Bool
  pub audit_row : Audit → Row

-- `KEEP_BACKUPS` and the `chunk_size` of a deletion
abbrev pub keep_backups : ℕ
keep_backups = 10

abbrev pub chunk_size : ℕ
chunk_size = 5000

-- `TARGET_REGISTRY`; each of its models exists.
abbrev pub is_target : String → Bool
is_target target =
    str_eq target "alarms"
    || str_eq target "audit_logs"
    || str_eq target "notification_logs"
    || str_eq target "sensor_data"
    || str_eq target "worker_location"

unfoldable pub make_backup_filename : Libraries → (now : ℕ) (target : String) → String
make_backup_filename lib now target = target <> ("_" <> (lib.stamp now <> ".json.gz"))

drop_last : String → String
drop_last String.[] = ""
drop_last (String.◌∷◌ c String.[]) = ""
drop_last (String.◌∷◌ c (String.◌∷◌ d s)) = String.◌∷◌ c (drop_last (String.◌∷◌ d s))

-- `text[1:-1]`
unfoldable pub inner : String → String
unfolding drop_last
inner String.[] = ""
inner (String.◌∷◌ c s) = drop_last s

-- The loop over the rows; `first` says that none was written yet.
unfoldable pub write_rows : Libraries → (first : Bool) → List Row → List String
write_rows lib first [] = []
write_rows lib first (obj ∷ rest) =
    let written = inner (lib.serialize obj) ∷ write_rows lib false rest in
    if not first then ",\n" ∷ written else written

unfoldable pub file_content : Libraries → List Row → List String
unfolding write_rows
file_content lib rows = "[\n" ∷ write_rows lib true rows ++ ("\n]\n" ∷ [])

abbrev pub same_file : BackupFile → BackupFile → Bool
same_file f g = str_eq f.target g.target && str_eq f.filename g.filename

-- Opening a file for writing replaces the file of that name.
unfoldable pub write_file : BackupFile → List BackupFile → List BackupFile
write_file f files = f ∷ select (λ g. not (same_file f g)) files

pub record Result : Type 0 where
  pub count : ℕ
  pub filename : String

-- `none` is the ValueError of an unknown target.
unfoldable pub stream_backup_to_file :
    Libraries → Plant → (now : ℕ) (target : String) → Option (Plant × Result)
unfolding write_file
stream_backup_to_file lib plant now target =
    if not (is_target target)
    then none
    else let name = make_backup_filename lib now target in
      let rows = plant.tables target in
      let file : BackupFile = record {
        target = target;
        filename = name;
        content = file_content lib rows;
        mtime = now;
      } in
      some (
        record plant { files = write_file file plant.files },
        record { count = length rows; filename = name },
      )

-- `sorted(files, key=mtime, reverse=True)`, which keeps the order of equals
unfoldable pub insert : BackupFile → List BackupFile → List BackupFile
insert f [] = f ∷ []
insert f (g ∷ rest) =
    let later = insert f rest in if leb g.mtime f.mtime then f ∷ g ∷ rest else g ∷ later

unfoldable pub newest_first : List BackupFile → List BackupFile
newest_first [] = []
newest_first (f ∷ rest) = insert f (newest_first rest)

abbrev pub drop : ℕ → List BackupFile → List BackupFile
drop zero xs = xs
drop (suc n) [] = []
drop (suc n) (x ∷ xs) = drop n xs

abbrev pub is_backup_of : Libraries → String → BackupFile → Bool
is_backup_of lib target f = str_eq f.target target && lib.globs (target <> "_*.json.gz") f.filename

abbrev pub backups_of : Libraries → String → List BackupFile → List BackupFile
backups_of lib target files = select (is_backup_of lib target) files

-- The files that a cleanup deletes.
unfoldable pub outdated :
    Libraries → (keep : ℕ) (target : String) → List BackupFile → List BackupFile
unfolding newest_first
outdated lib keep target files = drop keep (newest_first (backups_of lib target files))

unfoldable pub cleanup_old_backups : Libraries → (keep : ℕ) → Plant → (target : String) → Plant × ℕ
unfolding outdated
cleanup_old_backups lib keep plant target =
    let old = outdated lib keep target plant.files in
    (record plant { files = select (λ f. not (any (same_file f) old)) plant.files }, length old)

unfoldable pub first_named : (target filename : String) → List BackupFile → Option BackupFile
first_named target filename [] = none
first_named target filename (f ∷ rest) =
    if str_eq f.target target && str_eq f.filename filename
    then some f
    else first_named target filename rest

-- `is_bare` says that the name has no '/', no '\\' and no '..' in it.
unfoldable pub find_backup_file :
    (is_bare : String → Bool) → Plant → (target filename : String) → Option BackupFile
unfolding first_named
find_backup_file is_bare plant target filename =
    if not (is_target target) || not (is_bare filename)
    then none
    else first_named target filename plant.files

unfoldable pub delete_backup_file :
    (is_bare : String → Bool) → Plant → (target filename : String) → Plant × Bool
delete_backup_file is_bare plant target filename =
    elim (find_backup_file is_bare plant target filename) [
      | none ↦ (plant, false)
      | some f ↦ (record plant { files = select (λ g. not (same_file f g)) plant.files }, true)
    ]

abbrev pub with_table : Plant → String → List Row → Plant
with_table plant target rows = record plant {
  tables = λ t. if str_eq t target then rows else plant.tables t;
}

-- `filter(id__in=ids).delete()`
abbrev pub without : List ℕ → List Row → List Row
without ids rows = select (λ row. not (any (λ n. n == row.id) ids)) rows

abbrev pub is_empty : {A : Type 0} → List A → Bool
is_empty [] = true
is_empty (x ∷ xs) = false

-- The loop of `delete_all_data`: what is left and how many rows went; `none` where it still runs
-- when the fuel is used up. `arrivals n` are the rows that come in round `n`, after its deletion.
unfoldable pub delete_loop :
    (chunk : ℕ)
    → (arrivals : ℕ → List Row) → (fuel round : ℕ) → List Row
    → (total : ℕ) → Option (List Row × ℕ)
delete_loop chunk arrivals zero round rows total = none
delete_loop chunk arrivals (suc fuel) round rows total =
    let ids = map (λ (row : Row). row.id) (take chunk rows) in
    let left = without ids rows in
    let rest =
      delete_loop chunk arrivals fuel (suc round) (left ++ arrivals round)
        (total + (length rows - length left)) in
    if is_empty ids then some (rows, total) else rest

unfoldable pub delete_all_data :
    (arrivals : ℕ → List Row) → (fuel : ℕ) → Plant → (target : String) → Option (Plant × ℕ)
delete_all_data arrivals fuel plant target =
    if not (is_target target)
    then none
    else elim (delete_loop chunk_size arrivals fuel 0 (plant.tables target) 0) [
      | none ↦ none
      | some (left, total) ↦ some (with_table plant target left, total)
    ]

-- `AuditLog.objects.create`, whose exception `_audit_async` swallows
unfoldable pub create_audit : Libraries → Audit → Plant → Plant
create_audit lib audit plant = elim audit.target_pk [
  | none ↦ plant
  | some _ ↦ with_table plant "audit_logs" (lib.audit_row audit ∷ plant.tables "audit_logs")
]

unfoldable pub audit_async :
    Libraries
    → (action target filename : String) → (count : ℕ) → (actor_username : String) → Plant
    → Plant
unfolding create_audit
audit_async lib action target filename count actor_username plant =
    create_audit lib
      (record {
        action = action;
        actor_username = actor_username;
        target_repr = target <> (" (" <> (filename <> ")"));
        target_pk = none;
        count = count;
      })
      plant

unfoldable pub run_backup :
    Libraries → Plant → (now : ℕ) (target actor_username : String) → Option (Plant × Result)
run_backup lib plant now target actor_username = elim (stream_backup_to_file lib plant now target) [
  | none ↦ none
  | some (p1, result) ↦
      let p2 = (cleanup_old_backups lib keep_backups p1 target).0 in
      some (
        audit_async lib "data_backup" target result.filename result.count actor_username p2,
        result,
      )
]

pub record InitResult : Type 0 where
  pub filename : String
  pub backed_up : ℕ
  pub deleted : ℕ

-- `arrivals n` come in round `n` of the deletion, `between` after the backup and before it.
unfoldable pub run_init_with_backup :
    Libraries
    → (between : List Row) → (arrivals : ℕ → List Row) → (fuel : ℕ) → Plant
    → (now : ℕ) (target actor_username : String) → Option (Plant × InitResult)
run_init_with_backup lib between arrivals fuel plant now target actor_username =
    elim (stream_backup_to_file lib plant now target) [
      | none ↦ none
      | some (p1, result) ↦
          let p2 = (cleanup_old_backups lib keep_backups p1 target).0 in
          let p3 =
            audit_async lib "data_backup_pre_init" target result.filename result.count
              actor_username p2 in
          let p4 = with_table p3 target (p3.tables target ++ between) in
          elim (delete_all_data arrivals fuel p4 target) [
            | none ↦ none
            | some (p5, deleted) ↦ some (
              audit_async lib "data_init" target result.filename deleted actor_username p5,
              record { filename = result.filename; backed_up = result.count; deleted = deleted },
            )
          ]
    ]
