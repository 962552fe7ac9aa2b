-- ===== src/Backoffice/Backup/Keeping.antt =====
-- Which backups a cleanup keeps.
use sen_sa.Prelude.{
  ℕ, zero, suc, ◌+◌, ◌-◌, ◌≤◌, ◌≡◌, refl, ap, Bool, true, false, not, List, [], ◌∷◌, String, arith,
  leb, any, select, length, All, Bool-cases, inl, inr,
}
use sen_sa.Prelude.Text.{str_eq, eq_iff, eq_refl}
use sen_sa.Backoffice.Backup.{
  BackupFile, Plant, Libraries, same_file, insert, newest_first, drop, is_backup_of, backups_of,
  outdated, cleanup_old_backups,
}

abbrev pub IsOlder : BackupFile → BackupFile → Type 0
IsOlder g f = f.mtime ≤ g.mtime

-- Each file is followed by files that are not newer.
abbrev IsSorted : List BackupFile → Type 0
IsSorted [] = Unit {0}
IsSorted (f ∷ rest) = All (IsOlder f) rest × IsSorted rest

pub All-map :
    (P Q : BackupFile → Type 0) (xs : List BackupFile)
    → ((f : BackupFile) → P f → Q f)
    → All P xs
    → All Q xs
All-map P Q [] h all = tt
All-map P Q (x ∷ xs) h all = (h x all.0, All-map P Q xs h all.1)

All-insert :
    (P : BackupFile → Type 0) (f : BackupFile) (xs : List BackupFile)
    → P f
    → All P xs
    → All P (insert f xs)
unfolding insert
All-insert P f [] pf pxs = (pf, tt)
All-insert P f (g ∷ rest) pf pxs = elim (Bool-cases (leb g.mtime f.mtime)) [
  | inl e ↦ rw e (pf, pxs)
  | inr e ↦ rw e (pxs.0, All-insert P f rest pf pxs.1)
]

insert-IsSorted : (f : BackupFile) (xs : List BackupFile) → IsSorted xs → IsSorted (insert f xs)
unfolding insert
insert-IsSorted f [] s = (tt, tt)
insert-IsSorted f (g ∷ rest) s = elim (Bool-cases (leb g.mtime f.mtime)) [
  | inl e ↦
      let le : g.mtime ≤ f.mtime = ground arith in
      rw e ((le, All-map (IsOlder g) (IsOlder f) rest (λ h p. omega arith) s.0), s)
  | inr e ↦
      let le : f.mtime ≤ g.mtime = ground arith in
      rw e (All-insert (IsOlder g) f rest le s.0, insert-IsSorted f rest s.1)
]

newest_first-IsSorted : (xs : List BackupFile) → IsSorted (newest_first xs)
unfolding newest_first
newest_first-IsSorted [] = tt
newest_first-IsSorted (f ∷ rest) =
    insert-IsSorted f (newest_first rest) (newest_first-IsSorted rest)

-- What holds of the sorted files holds of the files.
All-uninsert :
    (P : BackupFile → Type 0) (f : BackupFile) (xs : List BackupFile)
    → All P (insert f xs)
    → P f × All P xs
unfolding insert
All-uninsert P f [] all = (all.0, tt)
All-uninsert P f (g ∷ rest) all = elim (Bool-cases (leb g.mtime f.mtime)) [
  | inl e ↦ rw e at all
  | inr e ↦
      let all' : P g × All P (insert f rest) = rw e at all in
      let (pf, prest) = All-uninsert P f rest all'.1 in (pf, (all'.0, prest))
]

All-unsort : (P : BackupFile → Type 0) (xs : List BackupFile) → All P (newest_first xs) → All P xs
unfolding newest_first
All-unsort P [] all = tt
All-unsort P (f ∷ rest) all =
    let (pf, prest) = All-uninsert P f (newest_first rest) all in (pf, All-unsort P rest prest)

pub All-sort : (P : BackupFile → Type 0) (xs : List BackupFile) → All P xs → All P (newest_first xs)
unfolding newest_first
All-sort P [] all = tt
All-sort P (f ∷ rest) all = All-insert P f (newest_first rest) all.0 (All-sort P rest all.1)

pub All-drop :
    (P : BackupFile → Type 0) (n : ℕ) (xs : List BackupFile) → All P xs → All P (drop n xs)
All-drop P zero xs all = all
All-drop P (suc n) [] all = tt
All-drop P (suc n) (x ∷ xs) all = All-drop P n xs all.1

-- In sorted files those that are dropped are not newer than those that are taken; and those that
-- are dropped are found among the dropped.
abbrev Found : List BackupFile → BackupFile → Type 0
Found old g = any (same_file g) old ≡ true

any_here : (f : BackupFile) (xs : List BackupFile) → Found (f ∷ xs) f
any_here f xs = rw (eq_refl f.target, eq_refl f.filename) refl

any_later : (f g : BackupFile) (xs : List BackupFile) → Found xs g → Found (f ∷ xs) g
any_later f g xs h = ground arith

All-Found : (xs : List BackupFile) → All (Found xs) xs
All-Found [] = tt
All-Found (f ∷ rest) = (
  any_here f rest,
  All-map (Found rest) (Found (f ∷ rest)) rest (λ g. any_later f g rest) (All-Found rest),
)

-- A file is among the old ones, or not older than any of them.
abbrev IsKept : List BackupFile → BackupFile → Type 0
IsKept old g = any (same_file g) old ≡ false → All (IsOlder g) old

split-IsKept : (n : ℕ) (xs : List BackupFile) → IsSorted xs → All (IsKept (drop n xs)) xs
split-IsKept zero xs s = All-map (Found xs) (IsKept xs) xs (λ g found missing. cc) (All-Found xs)
split-IsKept (suc n) [] s = tt
split-IsKept (suc n) (x ∷ xs) s = (λ missing. All-drop (IsOlder x) n xs s.0, split-IsKept n xs s.1)

-- Counting: sorting changes no count, and taking and dropping share it out.
count_if : (BackupFile → Bool) → List BackupFile → ℕ
count_if p xs = length (select p xs)

count_if-insert :
    (p : BackupFile → Bool) (f : BackupFile) (xs : List BackupFile)
    → count_if p (insert f xs) ≡ count_if p (f ∷ xs)
unfolding insert count_if
count_if-insert p f [] = refl
count_if-insert p f (g ∷ rest) = ground (arith, count_if-insert p f rest)

count_if-newest_first :
    (p : BackupFile → Bool) (xs : List BackupFile) → count_if p (newest_first xs) ≡ count_if p xs
unfolding newest_first count_if
count_if-newest_first p [] = refl
count_if-newest_first p (f ∷ rest) =
    ground (arith, count_if-insert p f (newest_first rest), count_if-newest_first p rest)

count_if-drop :
    (p : BackupFile → Bool) (n : ℕ) (xs : List BackupFile)
    → count_if p xs ≤ n + count_if p (drop n xs)
unfolding count_if
count_if-drop p zero xs = omega arith
count_if-drop p (suc n) [] = omega arith
count_if-drop p (suc n) (x ∷ xs) = ground (arith, count_if-drop p n xs)

count_if-none :
    (p : BackupFile → Bool) (xs : List BackupFile) → All (λ f. p f ≡ false) xs → count_if p xs ≡ 0
unfolding count_if
count_if-none p [] all = refl
count_if-none p (x ∷ xs) all = ground (arith, count_if-none p xs all.1)

count_if-select :
    (p q : BackupFile → Bool) (xs : List BackupFile)
    → count_if q (select p xs) ≡ count_if p (select q xs)
unfolding count_if
count_if-select p q [] = refl
count_if-select p q (x ∷ xs) = ground (arith, count_if-select p q xs)

All-kept :
    (old : List BackupFile) (q : BackupFile → Bool) (xs : List BackupFile)
    → All (IsKept old) (select q xs)
    → All (λ g. All (IsOlder g) old) (select q (select (λ f. not (any (same_file f) old)) xs))
All-kept old q [] all = tt
All-kept old q (x ∷ xs) all = elim (Bool-cases (any (same_file x) old)) [
  | inl e ↦ elim (Bool-cases (q x)) [
    | inl mine ↦
        let all' : IsKept old x × All (IsKept old) (select q xs) = rw mine at all in
        rw e (All-kept old q xs all'.1)
    | inr other ↦
        let all' : All (IsKept old) (select q xs) = rw other at all in rw e (All-kept old q xs all')
  ]
  | inr e ↦ elim (Bool-cases (q x)) [
    | inl mine ↦
        let all' : IsKept old x × All (IsKept old) (select q xs) = rw mine at all in
        rw (e, mine) (all'.0 e, All-kept old q xs all'.1)
    | inr other ↦
        let all' : All (IsKept old) (select q xs) = rw other at all in
        rw (e, other) (All-kept old q xs all')
  ]
]

abbrev pub Differs : BackupFile → BackupFile → Type 0
Differs f g = same_file f g ≡ false

pub All-select :
    (P : BackupFile → Type 0) (q : BackupFile → Bool) (xs : List BackupFile)
    → All P xs
    → All P (select q xs)
All-select P q [] all = tt
All-select P q (x ∷ xs) all = elim (Bool-cases (q x)) [
  | inl e ↦ rw e (all.0, All-select P q xs all.1)
  | inr e ↦ rw e (All-select P q xs all.1)
]

pub any-Differs :
    (f : BackupFile) (xs : List BackupFile) → All (Differs f) xs → any (same_file f) xs ≡ false
any-Differs f [] all = refl
any-Differs f (x ∷ xs) all = rw all.0 (any-Differs f xs all.1)

-- The names of the files of a directory are unique.
abbrev pub AreSeparate : List BackupFile → Type 0
AreSeparate [] = Unit {0}
AreSeparate (f ∷ rest) = All (Differs f) rest × AreSeparate rest

str_eq_sym : (a b : String) → str_eq a b ≡ false → str_eq b a ≡ false
str_eq_sym a b h = elim (Bool-cases (str_eq b a)) [
  | inl e ↦
      let same : b ≡ a = (eq_iff b a).0 e in
      absurd (ground (arith, h, eq_refl a, ap (λ c. str_eq a c) same))
  | inr e ↦ e
]

same_file_sym : (f g : BackupFile) → same_file f g ≡ false → same_file g f ≡ false
same_file_sym f g h =
    ground (arith, h, str_eq_sym f.target g.target, str_eq_sym f.filename g.filename)

insert-AreSeparate :
    (f : BackupFile) (xs : List BackupFile)
    → All (Differs f) xs
    → AreSeparate xs
    → AreSeparate (insert f xs)
unfolding insert
insert-AreSeparate f [] apart s = (tt, tt)
insert-AreSeparate f (g ∷ rest) apart s = elim (Bool-cases (leb g.mtime f.mtime)) [
  | inl e ↦ rw e (apart, s)
  | inr e ↦ rw e (
    All-insert (Differs g) f rest (same_file_sym f g apart.0) s.0,
    insert-AreSeparate f rest apart.1 s.1,
  )
]

newest_first-AreSeparate : (xs : List BackupFile) → AreSeparate xs → AreSeparate (newest_first xs)
unfolding newest_first
newest_first-AreSeparate [] s = tt
newest_first-AreSeparate (f ∷ rest) s =
    insert-AreSeparate f (newest_first rest) (All-sort (Differs f) rest s.0)
      (newest_first-AreSeparate rest s.1)

select-AreSeparate :
    (q : BackupFile → Bool) (xs : List BackupFile) → AreSeparate xs → AreSeparate (select q xs)
select-AreSeparate q [] s = tt
select-AreSeparate q (x ∷ xs) s = elim (Bool-cases (q x)) [
  | inl e ↦ rw e (All-select (Differs x) q xs s.0, select-AreSeparate q xs s.1)
  | inr e ↦ rw e (select-AreSeparate q xs s.1)
]

length-insert : (f : BackupFile) (xs : List BackupFile) → length (insert f xs) ≡ suc (length xs)
unfolding insert
length-insert f [] = refl
length-insert f (g ∷ rest) = ground (arith, length-insert f rest)

length-newest_first : (xs : List BackupFile) → length (newest_first xs) ≡ length xs
unfolding newest_first
length-newest_first [] = refl
length-newest_first (f ∷ rest) =
    omega (arith, length-insert f (newest_first rest), length-newest_first rest)

length-drop : (n : ℕ) (xs : List BackupFile) → length (drop n xs) ≡ length xs - n
length-drop zero xs = omega arith
length-drop (suc n) [] = omega arith
length-drop (suc n) (x ∷ xs) = omega (arith, length-drop n xs)

-- Of separate files none but the dropped ones is among the dropped.
count_if-kept :
    (n : ℕ) (xs : List BackupFile)
    → AreSeparate xs
    → length xs ≤ count_if (λ f. not (any (same_file f) (drop n xs))) xs + length (drop n xs)
unfolding count_if
count_if-kept zero xs s = omega arith
count_if-kept (suc n) [] s = omega arith
count_if-kept (suc n) (x ∷ xs) s =
    ground
      (arith, any-Differs x (drop n xs) (All-drop (Differs x) n xs s.0), count_if-kept n xs s.1)

-- After a cleanup a target has at most as many backups as are to be kept, none of them older than
-- one that was deleted; exactly those above that number were deleted, and all others are left. The
-- names of the files are unique.
pub cleanup_old_backups-IsKept :
    (lib : Libraries) (keep : ℕ) (plant : Plant) (target : String)
    → AreSeparate plant.files
    → let mine = backups_of lib target plant.files in
      let (after, deleted) = cleanup_old_backups lib keep plant target in
      let left = backups_of lib target after.files in
      (length left ≤ keep)
      × All (λ g. All (IsOlder g) (outdated lib keep target plant.files)) left
      × (deleted ≡ length mine - keep)
      × (length mine ≤ length left + deleted)
unfolding cleanup_old_backups outdated count_if
cleanup_old_backups-IsKept lib keep plant target separate =
    let mine = backups_of lib target plant.files in
    let sorted = newest_first mine in
    let old = drop keep sorted in
    let p = λ (f : BackupFile). not (any (same_file f) old) in
    let counted = count_if-select p (is_backup_of lib target) plant.files in
    (
      omega (
        arith,
        counted,
        count_if-newest_first p mine,
        count_if-drop p keep sorted,
        count_if-none p old
            (All-map (Found old) (λ f. p f ≡ false) old (λ f e. rw e refl) (All-Found old)),
      ),
      All-kept old (is_backup_of lib target) plant.files
          (All-unsort (IsKept old) mine (split-IsKept keep sorted (newest_first-IsSorted mine))),
      omega (arith, length-drop keep sorted, length-newest_first mine),
      omega (
        arith,
        counted,
        count_if-newest_first p mine,
        length-newest_first mine,
        count_if-kept keep sorted (
            newest_first-AreSeparate mine
              (select-AreSeparate (is_backup_of lib target) plant.files separate)),
      ),
    )
