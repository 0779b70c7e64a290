-- ===== src/Store/Tx.antt =====
-- internal/store/file.go: the methods of `Tx`, which run the statements inside a transaction.
use networkdisk.Prelude.{
  ℕ, Bool, not, ◌&&◌, ◌||◌, Option, List, [], ◌∷◌, if◌then◌else◌, length, first, select, any,
}
use networkdisk.Text.{Text}
use networkdisk.Model.{File, Db}
use networkdisk.Exec.{
  err, foreign_key, empty_ids, bad_id, Exec, pure, raise, raise_if, call, ◌>>=◌, ◌>>◌,
}
use networkdisk.Store.Sql.{
  has_id, in_ids, has_name, is_empty, must_be_positive, all_positive, must_be_valid_name, query_row,
  query, exec, update_files, parent_exists, untrashed, in_trash, trashed,
}
use networkdisk.Prelude.Int.{ℤ}
use networkdisk.Store.Files.{insert_file}
use networkdisk.Store.Users.{update_users, add_used}

unfoldable pub file_by_id : ℕ → Exec File
unfolding call
file_by_id i = must_be_positive i (call (query_row (λ v d. first (has_id i) d.files)))

unfoldable pub files_by_ids : List ℕ → Exec (List File)
unfolding call
files_by_ids [] = pure []
files_by_ids (i ∷ is) =
    raise_if (not (all_positive (i ∷ is))) bad_id
      (call (query (λ v d. select (in_ids (i ∷ is)) d.files)))

unfoldable pub create_file : File → Exec File
unfolding call ◌>>=◌ file_by_id
create_file f =
    must_be_positive f.user_id
      (must_be_valid_name f.name (do i ← call (insert_file f); file_by_id i))

unfoldable pub file_name_exists : Option ℕ → ℕ → Text → Exec Bool
unfolding call
file_name_exists parent u n =
    must_be_positive u
      (must_be_valid_name n (call (query (λ v d. any (has_name v parent u n) d.files))))

unfoldable pub update_file_name : ℕ → Text → Exec (Unit {0})
unfolding call
update_file_name i n =
    must_be_positive i
      (must_be_valid_name n (call (exec (update_files (has_id i) (λ f. record f { name = n })))))

unfoldable pub update_file_parent_id : ℕ → Option ℕ → Exec (Unit {0})
unfolding call
update_file_parent_id i parent = must_be_positive i (
    call λ v w.
      if parent_exists parent w.db || not (any (has_id i) w.db.files)
      then exec (update_files (has_id i) (λ f. record f { parent_id = parent })) v w
      else (err foreign_key, w))

unfoldable pub batch_soft_delete : List ℕ → Exec (Unit {0})
unfolding call
batch_soft_delete [] = raise empty_ids
batch_soft_delete (i ∷ is) =
    raise_if (not (all_positive (i ∷ is))) bad_id
      (call λ v w. exec (update_files (in_ids (i ∷ is)) (trashed w.now)) v w)

unfoldable pub restore_files : List ℕ → Exec (Unit {0})
unfolding call
restore_files [] = raise empty_ids
restore_files (i ∷ is) =
    raise_if (not (all_positive (i ∷ is))) bad_id
      (call (exec (update_files (λ f. in_ids (i ∷ is) f && in_trash f) untrashed)))

unfoldable pub count_by_storage_key : Text → Exec ℕ
unfolding call
count_by_storage_key key =
    if is_empty key
    then pure 0
    else call (query (λ v d. length (select (λ f. v.same_text f.storage_key key) d.files)))

unfoldable pub count_by_thumbnail_key : Text → Exec ℕ
unfolding call
count_by_thumbnail_key key =
    if is_empty key
    then pure 0
    else call (query (λ v d. length (select (λ f. v.same_text f.thumbnail_key key) d.files)))

abbrev pub delete_rows : List ℕ → Db → Db
delete_rows ids d = record d { files = select (λ f. not (in_ids ids f)) d.files }

-- With the foreign keys off: two SET statements stand round the DELETE.
unfoldable pub hard_delete_files : List ℕ → Exec (Unit {0})
unfolding call ◌>>=◌
hard_delete_files [] = raise empty_ids
hard_delete_files (i ∷ is) = do call (pure tt); call (exec (delete_rows (i ∷ is))); call (pure tt)

unfoldable pub update_user_storage_used : ℕ → ℤ → Exec (Unit {0})
unfolding call
update_user_storage_used i delta =
    must_be_positive i (call (exec (update_users i (add_used delta))))
