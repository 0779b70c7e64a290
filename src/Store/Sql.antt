-- ===== src/Store/Sql.antt =====
-- The tests that the WHERE clauses of internal/store/file.go are made of, and the guards on arguments.
use networkdisk.Prelude.{
  ℕ, ◌+◌, Bool, true, false, not, ◌&&◌, ◌||◌, Option, none, some, List, [], ◌∷◌, ltb, ◌==◌,
  if◌then◌else◌, length, contains, update, any,
}
use networkdisk.Text.{Text}
use networkdisk.Model.{File, Db, Env}
use networkdisk.Exec.{Result, ok, err, bad_id, bad_name, no_rows, Exec, raise_if, put_db}

abbrev pub has_id : ℕ → File → Bool
has_id i f = f.id == i

abbrev pub in_ids : List ℕ → File → Bool
in_ids ids f = contains f.id ids

-- `parent_id IS NULL` for a nil argument, `parent_id = ?` otherwise.
abbrev pub has_parent : Option ℕ → File → Bool
has_parent none f = elim f.parent_id [ none ↦ true | some _ ↦ false ]
has_parent (some p) f = elim f.parent_id [ none ↦ false | some q ↦ q == p ]

abbrev pub is_live : File → Bool
is_live f = not f.is_deleted

-- `user_id = ? AND parent_id … AND name = ? AND is_deleted = 0`.
abbrev pub has_name : Env → Option ℕ → ℕ → Text → File → Bool
has_name v parent u n f = f.user_id == u && has_parent parent f && v.same_text f.name n && is_live f

-- `user_id = ? AND is_dir = 0 AND is_deleted = …`.
abbrev pub counts_for : ℕ → Bool → File → Bool
counts_for u deleted f =
    f.user_id == u && not f.is_dir && (if deleted then f.is_deleted else not f.is_deleted)

abbrev pub total_size : List File → ℕ
total_size [] = 0
total_size (f ∷ fs) = f.size + total_size fs

abbrev pub is_empty : Text → Bool
is_empty [] = true
is_empty (_ ∷ _) = false

-- `mustBePositive`, on ids that are not negative.
abbrev pub must_be_positive : {A : Type 0} → ℕ → Exec A → Exec A
must_be_positive i m = raise_if (i == 0) bad_id m

abbrev pub all_positive : List ℕ → Bool
all_positive [] = true
all_positive (i ∷ is) = not (i == 0) && all_positive is

-- `mustBeValidName`.
abbrev pub must_be_valid_name : {A : Type 0} → Text → Exec A → Exec A
must_be_valid_name n m = raise_if (is_empty n || ltb 255 (length n)) bad_name m

-- `Row.Scan`, which gives `sql.ErrNoRows` where there is no row.
abbrev pub row : {A : Type 0} → Option A → Result A
row none = err no_rows
row (some a) = ok a

abbrev pub query_row : {A : Type 0} → (Env → Db → Option A) → Exec A
query_row q v w = (row (q v w.db), w)

abbrev pub query : {A : Type 0} → (Env → Db → A) → Exec A
query q v w = (ok (q v w.db), w)

abbrev pub exec : (Db → Db) → Exec (Unit {0})
exec f v w = (ok tt, put_db (f w.db) w)

abbrev pub update_files : (File → Bool) → (File → File) → Db → Db
update_files p f d = record d { files = update p f d.files }

-- The foreign key of `parent_id`.
abbrev pub parent_exists : Option ℕ → Db → Bool
parent_exists none d = true
parent_exists (some p) d = any (has_id p) d.files

abbrev pub user_exists : ℕ → Db → Bool
user_exists u d = any (λ x. x.id == u) d.users

-- The row of an INSERT: the columns that the statement leaves out have their defaults.
abbrev pub new_row : ℕ → File → File
new_row i f = record f { id = i; is_deleted = false; deleted_at = none }

abbrev pub insert_row : File → Db → Db
insert_row f d = record d {
  files = new_row (d.last_file + 1) f ∷ d.files;
  last_file = d.last_file + 1;
}

-- `GREATEST(storage_used + ?, 0)` is in `Users`; the changes of a row of `files` are here.
abbrev pub trashed : ℕ → File → File
trashed now f = record f { is_deleted = true; deleted_at = some now }

abbrev pub untrashed : File → File
untrashed f = record f { is_deleted = false; deleted_at = none }

abbrev pub in_trash : File → Bool
in_trash f = f.is_deleted
