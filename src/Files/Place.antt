-- ===== src/Files/Place.antt =====
-- internal/service/file.go: the operations that give a row its directory and its name.
pub mod Refine
pub mod Copy
pub mod BatchMove
use networkdisk.Prelude.{
  ℕ, zero, suc, ◌+◌, Bool, true, false, not, ◌&&◌, ◌||◌, Option, none, some, List, [], ◌∷◌, ◌==◌,
  if◌then◌else◌,
}
use networkdisk.Prelude.Int.{pos}
use networkdisk.Text.{Text, text_eq, trim_space, trim_suffix, ext}
use networkdisk.Model.{File, Env, World}
use networkdisk.Exec.{
  file_not_found, name_conflict, into_self, into_subdir, nothing_selected, absent, conflict_of,
  Exec, pure, raise, refuse_if, on_no_rows, transaction, ◌>>=◌, ◌>>◌,
}
use networkdisk.Store.Files
use networkdisk.Store.Tx
use networkdisk.Files.Guards.{validate_parent, check_name, is_descendant_of, free_name}

-- The row that `CreateFile` inserts: the columns that the caller names, and zero values.
abbrev pub new_file : ℕ → Option ℕ → Text → Bool → ℕ → Text → Text → Text → Text → File
new_file u parent n dir size hash key thumb mime = record {
  id = 0;
  user_id = u;
  parent_id = parent;
  name = n;
  is_dir = dir;
  size = size;
  file_hash = hash;
  storage_key = key;
  thumbnail_key = thumb;
  mime_type = mime;
  is_starred = false;
  is_deleted = false;
  deleted_at = none;
}

unfoldable pub create_dir : Text → Option ℕ → ℕ → Exec File
unfolding ◌>>=◌ refuse_if
create_dir raw parent u = do
  check_name (trim_space raw)
  validate_parent parent u
  exists ← Files.file_name_exists parent u (trim_space raw)
  refuse_if exists name_conflict
  Files.create_file (new_file u parent (trim_space raw) true 0 [] [] [] [])

-- The row as it is, if it has the name already; after a change it is read again.
abbrev read_again : ℕ → Option File → Exec File
read_again i none = Files.file_by_id i
read_again i (some f) = pure f

unfoldable pub rename_file : ℕ → Text → ℕ → Exec File
unfolding ◌>>=◌ refuse_if on_no_rows transaction
rename_file i raw u = do
  check_name (trim_space raw)
  same ← transaction (do
    f ← on_no_rows file_not_found (Tx.file_by_id i)
    refuse_if (not (f.user_id == u)) file_not_found
    if text_eq f.name (trim_space raw) then pure (some f) else (do
      exists ← Tx.file_name_exists f.parent_id u (trim_space raw)
      refuse_if exists name_conflict
      Tx.update_file_name i (trim_space raw)
      pure none))
  read_again i same

-- The two checks of a target directory that come before the row is read.
abbrev check_target : ℕ → Option ℕ → ℕ → Exec (Unit {0})
check_target i none u = pure tt
check_target i (some t) u = refuse_if (t == i) into_self >> validate_parent (some t) u

-- The check for a cycle: a directory is not moved where `is_descendant_of` holds.
unfoldable pub check_cycle : File → ℕ → Option ℕ → Exec Bool
check_cycle f i none = pure false
check_cycle f i (some t) = if f.is_dir then is_descendant_of t i else pure false

unfoldable pub move_file : ℕ → Option ℕ → ℕ → Exec File
unfolding ◌>>=◌ refuse_if transaction check_cycle
move_file i target u = do
  check_target i target u
  f ← Files.file_by_id i
  refuse_if (not (f.user_id == u) || f.is_deleted) file_not_found
  inside ← check_cycle f i target
  refuse_if inside into_subdir
  transaction (do
    g ← Tx.file_by_id i
    refuse_if (not (g.user_id == u) || g.is_deleted) file_not_found
    exists ← Tx.file_name_exists target u g.name
    refuse_if exists name_conflict
    Tx.update_file_parent_id i target)
  Files.file_by_id i

-- The name of a copy: the source's, or the first numbered one that is free.
unfoldable pub copy_name : File → Option ℕ → ℕ → Exec Text
unfolding ◌>>=◌
copy_name src target u = do
  exists ← Tx.file_name_exists target u src.name
  if exists
      then free_name (Tx.file_name_exists target u) (trim_suffix src.name (ext src.name))
          (ext src.name) 1 999
      else pure src.name

abbrev pub copy_of : File → Option ℕ → ℕ → Text → File
copy_of src target u n =
    new_file u target n false src.size src.file_hash src.storage_key src.thumbnail_key src.mime_type

unfoldable pub copy_file : ℕ → Option ℕ → ℕ → Exec File
unfolding ◌>>=◌ refuse_if transaction
copy_file i target u = do
  src ← Files.file_by_id i
  refuse_if (not (src.user_id == u) || src.is_dir || src.is_deleted) file_not_found
  validate_parent target u
  transaction (do
    n ← copy_name src target u
    copied ← Tx.create_file (copy_of src target u n)
    Tx.update_user_storage_used u (pos src.size)
    pure copied)

unfoldable pub toggle_star : ℕ → ℕ → Exec Bool
unfolding ◌>>=◌ refuse_if
toggle_star i u = do
  f ← Files.file_by_id i
  refuse_if (not (f.user_id == u) || f.is_deleted) file_not_found
  Files.toggle_star i

abbrev pub is_target : ℕ → Option ℕ → Bool
is_target i none = false
is_target i (some t) = t == i

-- The first loop of `BatchMove`: every id is checked before any row is changed.
unfoldable pub check_moves : List ℕ → Option ℕ → ℕ → Exec (Unit {0})
unfolding ◌>>=◌ refuse_if
check_moves [] target u = pure tt
check_moves (i ∷ is) target u = do
  f ← Tx.file_by_id i
  refuse_if (not (f.user_id == u) || f.is_deleted) (absent i)
  refuse_if (is_target i target) into_self
  inside ← check_cycle f i target
  refuse_if inside into_subdir
  exists ← Tx.file_name_exists target u f.name
  refuse_if exists (conflict_of i)
  check_moves is target u

-- The second loop.
unfoldable pub apply_moves : List ℕ → Option ℕ → Exec (Unit {0})
unfolding ◌>>=◌
apply_moves [] target = pure tt
apply_moves (i ∷ is) target = Tx.update_file_parent_id i target >> apply_moves is target

unfoldable pub batch_move : List ℕ → Option ℕ → ℕ → Exec (Unit {0})
unfolding ◌>>=◌ transaction
batch_move [] target u = raise nothing_selected
batch_move (i ∷ is) target u = do
  validate_parent target u
  transaction (check_moves (i ∷ is) target u >> apply_moves (i ∷ is) target)
