-- ===== src/Files/Purge.antt =====
-- internal/service/file.go: `PermanentDeleteFile`, with the data on the disk that no row needs.
pub mod Refine
use networkdisk.Prelude.{
  ℕ, zero, suc, ◌+◌, ◌<◌, Bool, true, false, not, ◌&&◌, ◌||◌, Option, none, some, List, [], ◌∷◌,
  ◌++◌, ◌==◌, ltb, leb, if◌then◌else◌,
}
use networkdisk.Prelude.Int.{ℤ, pos, is_zero, ◌-ℤ◌}
use networkdisk.Text.{Text, text_eq}
use networkdisk.Model.{File, Env, World}
use networkdisk.Exec.{
  file_not_found, Exec, pure, raise, refuse_if, attempt, transaction, remove_from_disk, ◌>>=◌, ◌>>◌,
}
use networkdisk.Store.Sql.{is_empty}
use networkdisk.Store.Files
use networkdisk.Store.Tx
use networkdisk.Store.Users
use networkdisk.Store.Tree.{ids_of}
use networkdisk.Files.Trash.{sub_sizes, subtree}

-- The variables of the loop: `checked`, `physDelStorages`, `physDelThumbnails`.
pub record Keys : Type 0 where
  pub checked : List Text
  pub storages : List Text
  pub thumbnails : List Text

abbrev pub no_keys : Keys
no_keys = record { checked = []; storages = []; thumbnails = [] }

abbrev pub is_checked : Text → List Text → Bool
is_checked k [] = false
is_checked k (c ∷ cs) = text_eq k c || is_checked k cs

-- `err == nil && count <= 1`.
abbrev pub is_last : Option ℕ → Bool
is_last none = false
is_last (some n) = leb n 1

unfoldable pub check_storage : File → Keys → Exec Keys
unfolding ◌>>=◌ attempt
check_storage f k =
    if is_empty f.storage_key || is_checked f.storage_key k.checked then pure k else (do
      n ← attempt (Tx.count_by_storage_key f.storage_key)
      pure (record k {
        checked = f.storage_key ∷ k.checked;
        storages = if is_last n then k.storages ++ (f.storage_key ∷ []) else k.storages;
      }))

unfoldable pub check_thumbnail : File → Keys → Exec Keys
unfolding ◌>>=◌ attempt
check_thumbnail f k =
    if is_empty f.thumbnail_key || is_checked f.thumbnail_key k.checked then pure k else (do
      n ← attempt (Tx.count_by_thumbnail_key f.thumbnail_key)
      pure (record k {
        checked = f.thumbnail_key ∷ k.checked;
        thumbnails = if is_last n then k.thumbnails ++ (f.thumbnail_key ∷ []) else k.thumbnails;
      }))

unfoldable pub check_keys : List File → Keys → Exec Keys
unfolding ◌>>=◌
check_keys [] k = pure k
check_keys (f ∷ fs) k = do k' ← check_storage f k; k'' ← check_thumbnail f k'; check_keys fs k''

unfoldable pub remove_all : List Text → Exec (Unit {0})
unfolding ◌>>=◌ remove_from_disk
remove_all [] = pure tt
remove_all (k ∷ ks) = remove_from_disk k >> remove_all ks

-- The transaction: the keys that only these rows use, and the DELETE.
unfoldable pub purge_rows : List ℕ → Exec Keys
unfolding ◌>>=◌ transaction
purge_rows ids =
    transaction
      (do rows ← Tx.files_by_ids ids; k ← check_keys rows no_keys; Tx.hard_delete_files ids; pure k)

unfoldable pub permanent_delete_file : ℕ → ℕ → Exec (Unit {0})
unfolding ◌>>=◌ refuse_if
permanent_delete_file i u = do
  f ← Files.file_by_id i
  refuse_if (not (f.user_id == u) || not f.is_deleted) file_not_found
  below ← if f.is_dir then subtree i true else pure []
  keys ← purge_rows (i ∷ ids_of below)
  remove_all keys.storages
  remove_all keys.thumbnails
  (let delta = if f.is_dir then sub_sizes (pos 0) below else pos 0 -ℤ pos f.size in
      if is_zero delta then pure tt else Users.update_user_storage_used u delta)
