-- ===== src/Store/Files.antt =====
-- internal/store/file.go: the methods of `Store` on the table `files`.
use networkdisk.Prelude.{
  ℕ, ◌+◌, Bool, true, false, not, ◌&&◌, ◌||◌, Option, none, some, List, [], ◌∷◌, ltb, if◌then◌else◌,
  length, first, select, any,
}
use networkdisk.Text.{Text}
use networkdisk.Model.{File}
use networkdisk.Exec.{
  ok, err, foreign_key, no_key, no_rows, empty_ids, bad_id, Exec, pure, raise, raise_if, call,
  put_db, transaction, ◌>>=◌,
}
use networkdisk.Store.Sql.{
  has_id, in_ids, has_name, is_live, counts_for, total_size, is_empty, must_be_positive,
  all_positive, must_be_valid_name, query_row, query, exec, update_files, parent_exists,
  user_exists, insert_row, trashed, untrashed, in_trash,
}

unfoldable pub file_by_id : ℕ → Exec File
unfolding call
file_by_id i = must_be_positive i (call (query_row (λ v d. first (has_id i) d.files)))

-- The INSERT with its foreign keys on `user_id` and `parent_id`; it gives the new id.
abbrev pub insert_file : File → Exec ℕ
insert_file f v w =
    if user_exists f.user_id w.db && parent_exists f.parent_id w.db
    then (ok (w.db.last_file + 1), put_db (insert_row f w.db) w)
    else (err foreign_key, w)

unfoldable pub create_file : File → Exec File
unfolding call ◌>>=◌ file_by_id
create_file f =
    must_be_positive f.user_id
      (must_be_valid_name f.name (do i ← call (insert_file f); file_by_id i))

unfoldable pub count_by_storage_key : Text → Exec ℕ
unfolding call
count_by_storage_key key =
    if is_empty key
    then pure 0
    else call (query (λ v d. length (select (λ f. v.same_text f.storage_key key) d.files)))

unfoldable pub count_by_thumbnail_key : Text → Exec ℕ
unfolding call
count_by_thumbnail_key key =
    if is_empty key
    then pure 0
    else call (query (λ v d. length (select (λ f. v.same_text f.thumbnail_key key) d.files)))

unfoldable pub file_by_hash : Text → Exec File
unfolding call
file_by_hash hash = raise_if (is_empty hash) no_key (
    call (
      query_row
        λ v d. first (λ f. v.same_text f.file_hash hash && not f.is_dir && is_live f) d.files))

unfoldable pub file_by_name : Option ℕ → ℕ → Text → Exec File
unfolding call
file_by_name parent u n =
    must_be_positive u
      (must_be_valid_name n (call (query_row (λ v d. first (has_name v parent u n) d.files))))

unfoldable pub file_name_exists : Option ℕ → ℕ → Text → Exec Bool
unfolding call
file_name_exists parent u n =
    must_be_positive u
      (must_be_valid_name n (call (query (λ v d. any (has_name v parent u n) d.files))))

unfoldable pub update_file_name : ℕ → Text → Exec (Unit {0})
unfolding call
update_file_name i n =
    must_be_positive i
      (must_be_valid_name n (call (exec (update_files (has_id i) (λ f. record f { name = n })))))

unfoldable pub soft_delete_file : ℕ → Exec (Unit {0})
unfolding call
soft_delete_file i =
    must_be_positive i (call λ v w. exec (update_files (has_id i) (trashed w.now)) v w)

unfoldable pub update_file_storage_key : ℕ → Text → Exec (Unit {0})
unfolding call
update_file_storage_key i key = must_be_positive i (
    raise_if (is_empty key || ltb 64 (length key)) no_key
      (call (exec (update_files (has_id i) (λ f. record f { storage_key = key })))))

unfoldable pub update_file_thumbnail_key : ℕ → Text → Exec (Unit {0})
unfolding call
update_file_thumbnail_key i key = must_be_positive i (
    raise_if (is_empty key || ltb 64 (length key)) no_key
      (call (exec (update_files (has_id i) (λ f. record f { thumbnail_key = key })))))

-- The UPDATE, which fails where it affects no row.
unfoldable pub restore_file : ℕ → Exec (Unit {0})
unfolding call
restore_file i = must_be_positive i (
    call λ v w.
      if any (λ f. has_id i f && in_trash f) w.db.files
      then exec (update_files (λ f. has_id i f && in_trash f) untrashed) v w
      else (err no_rows, w))

-- The UPDATE with the foreign key of `parent_id`, which is tested where a row is changed.
unfoldable pub update_file_parent_id : ℕ → Option ℕ → Exec (Unit {0})
unfolding call
update_file_parent_id i parent = must_be_positive i (
    call λ v w.
      if parent_exists parent w.db || not (any (has_id i) w.db.files)
      then exec (update_files (has_id i) (λ f. record f { parent_id = parent })) v w
      else (err foreign_key, w))

abbrev flip_star : File → File
flip_star f = record f { is_starred = not f.is_starred }

-- A transaction of its own: the UPDATE, its number of rows, and the new value.
unfoldable pub toggle_star : ℕ → Exec Bool
unfolding call transaction ◌>>=◌
toggle_star i = must_be_positive i (
    transaction (
      call (λ v w.
        if any (has_id i) w.db.files
        then exec (update_files (has_id i) flip_star) v w
        else (err no_rows, w))
      >>= λ _. call (query_row (λ v d. first (has_id i) d.files)) >>= λ f. pure f.is_starred))

unfoldable pub batch_soft_delete : List ℕ → Exec (Unit {0})
unfolding call
batch_soft_delete [] = raise empty_ids
batch_soft_delete (i ∷ is) =
    raise_if (not (all_positive (i ∷ is))) bad_id
      (call λ v w. exec (update_files (in_ids (i ∷ is)) (trashed w.now)) v w)

unfoldable pub sum_active_storage : ℕ → Exec ℕ
unfolding call
sum_active_storage u =
    must_be_positive u (call (query (λ v d. total_size (select (counts_for u false) d.files))))

unfoldable pub sum_recycle_storage : ℕ → Exec ℕ
unfolding call
sum_recycle_storage u =
    must_be_positive u (call (query (λ v d. total_size (select (counts_for u true) d.files))))

-- `deleted_at < ?` does not hold of NULL.
abbrev expired_before : ℕ → File → Bool
expired_before cutoff f = f.is_deleted && elim f.deleted_at [ none ↦ false | some t ↦ ltb t cutoff ]

unfoldable pub expired_recycle_candidates : ℕ → Exec (List File)
unfolding call
expired_recycle_candidates cutoff = call (query (λ v d. select (expired_before cutoff) d.files))

unfoldable pub files_by_ids : List ℕ → Exec (List File)
unfolding call
files_by_ids [] = pure []
files_by_ids (i ∷ is) =
    raise_if (not (all_positive (i ∷ is))) bad_id
      (call (query (λ v d. select (in_ids (i ∷ is)) d.files)))
