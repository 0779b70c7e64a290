-- ===== src/Uploads.antt =====
-- internal/service/file.go: `UploadFile`. The content goes to the disk unless a live file has the same
-- hash; then the new row shares the storage key of that file.
pub mod Chunks
pub mod Placed
pub mod Effect
pub mod Joined
pub mod Whole
pub mod Frame
pub mod Sessions
pub mod Refine
pub mod Opened
pub mod Pieces
pub mod Sent
pub mod Stored
pub mod Kept
pub mod Owned
pub mod Requests
use networkdisk.Prelude.{
  ℕ, zero, suc, ◌+◌, Bool, true, false, not, ◌&&◌, Option, none, some, List, [], ◌∷◌, ◌++◌, ltb,
  if◌then◌else◌, length,
}
use networkdisk.Prelude.Int.{pos, ◌-ℤ◌}
use networkdisk.Text.{Text, text_eq, trim_space, ext, leading}
use networkdisk.Model.{File, Env, World}
use networkdisk.Exec.{
  Result, ok, err, database, no_rows, file_too_large, Exec, pure, raise, refuse_if, transaction,
  settle, io, ask, tick, put_db, without_key, draw, ◌>>=◌, ◌>>◌,
}
use networkdisk.Store.Sql.{is_empty}
use networkdisk.Store.Files
use networkdisk.Store.Tx
use networkdisk.Files.Guards.{
  validate_parent, validate_extension, check_name, OverwriteTarget, resolve_name_conflict,
}
use networkdisk.Files.Place.{new_file}

-- `UploadResult`.
pub record UploadResult : Type 0 where
  pub file : File
  pub duplicate : Bool

-- `strings.ToLower(filepath.Ext(name))`.
abbrev pub lower_ext : Text → Env → Text
lower_ext n v = v.lower (ext n)

-- `err != nil && !errors.Is(err, sql.ErrNoRows)`.
abbrev or_none : {A : Type 0} → Result A → Result (Option A)
or_none (ok a) = ok (some a)
or_none (err no_rows) = ok none
or_none (err e) = err e

unfoldable pub find_by_hash : Text → Exec (Option File)
find_by_hash h v w = let (r, w') = Files.file_by_hash h v w in (or_none r, w')

-- `io.Copy` of a `LimitReader` into the temporary file.
unfoldable pub receive : Text → Exec Text
unfolding io
receive body = io (ask λ v w. leading (v.cfg.max_file_size + 1) body)

-- The row that a new version replaces goes to the recycle bin.
unfoldable pub retire : Option OverwriteTarget → ℕ → Exec (Unit {0})
unfolding ◌>>=◌
retire none u = pure tt
retire (some t) u =
    Tx.batch_soft_delete (t.id ∷ [])
    >> (if not t.is_dir && ltb 0 t.size
        then Tx.update_user_storage_used u (pos 0 -ℤ pos t.size)
        else pure tt)

-- A row whose data the disk has already.
unfoldable pub place_duplicate : Option OverwriteTarget → File → Exec File
unfolding ◌>>=◌ transaction
place_duplicate old f = transaction (do
  retire old f.user_id
  row ← Tx.create_file f
  Tx.update_user_storage_used f.user_id (pos f.size)
  pure row)

-- `generateStorageKey`.
unfoldable pub generate_storage_key : Text → Exec Text
unfolding ◌>>=◌
generate_storage_key e = do t ← draw; pure (t ++ e)

abbrev pub stored : Text → Text → World → World
stored key content w = record w { disk = λ k. if text_eq k key then some content else w.disk k }

-- `os.MkdirAll` and `os.Rename` of the temporary file.
unfoldable pub move_to_storage : Text → Text → Exec (Unit {0})
unfolding ◌>>=◌ io
move_to_storage key content = io (pure tt) >> io (λ v w. (ok tt, stored key content w))

-- `os.Remove(finalPath)` where an action fails.
abbrev pub forget : Text → World → World
forget key w = record w { disk = without_key key w.disk }

abbrev or_forgotten : {A : Type 0} → Text → Result A × World → Result A × World
or_forgotten key (ok a, w) = (ok a, w)
or_forgotten key (err e, w) = (err e, forget key w)

unfoldable pub or_forget : {A : Type 0} → Text → Exec A → Exec A
or_forget key m v w = or_forgotten key (m v w)

-- The end of the transaction of new data: a failed COMMIT removes the data; the rollback after an
-- error in the statements does not.
unfoldable pub settle_or_forget : {A : Type 0} → Text → World → Result A → World → Result A × World
settle_or_forget key before (ok a) w =
    if w.faults w.calls
    then (err database, forget key (put_db before.db (tick w)))
    else (ok a, tick w)
settle_or_forget key before (err e) w = (err e, put_db before.db w)

unfoldable pub place_new : Text → Option OverwriteTarget → File → Exec File
unfolding ◌>>=◌ or_forget settle_or_forget
place_new key old f v w =
    if w.faults w.calls
    then (err database, forget key (tick w))
    else let (r, w') =
        (do
          or_forget key (retire old f.user_id)
          row ← or_forget key (Tx.create_file f)
          Tx.update_user_storage_used f.user_id (pos f.size)
          pure row)
          v (tick w) in
      settle_or_forget key w r w'

abbrev pub with_key : File → Text → File
with_key f key = record f { storage_key = key }

-- What follows the look for a file of the same hash; `f` has all but the name and the key.
unfoldable pub place_upload : Option File → Text → Text → Text → File → Exec UploadResult
unfolding ◌>>=◌
place_upload (some same) n e content f = do
  r ← resolve_name_conflict n e f.parent_id f.user_id
  row ← place_duplicate r.1 (record f { name = r.0; storage_key = same.storage_key })
  pure (record { file = row; duplicate = true })
place_upload none n e content f = do
  r ← resolve_name_conflict n e f.parent_id f.user_id
  key ← generate_storage_key e
  move_to_storage key content
  row ← place_new key r.1 (record f { name = r.0; storage_key = key })
  pure (record { file = row; duplicate = false })

-- `detectMime` looks at the first 8192 bytes.
abbrev pub mime_if : Text → Env → Text
mime_if content v = if v.cfg.detect_mime then v.mime_of (leading 8192 content) else []

-- The row of an upload, less its name and its storage key.
abbrev pub upload_row : ℕ → Option ℕ → Text → Env → File
upload_row u parent content v =
    new_file u parent [] false (length content) (v.sha256_hex content) [] [] (mime_if content v)

unfoldable pub upload_file : Text → Text → Option ℕ → ℕ → Exec UploadResult
unfolding ◌>>=◌ refuse_if io
upload_file body raw parent u v =
    (do
      check_name (trim_space raw)
      validate_extension (lower_ext (trim_space raw) v)
      validate_parent parent u
      io (pure tt)
      content ← receive body
      refuse_if (ltb v.cfg.max_file_size (length content)) file_too_large
      same ← find_by_hash (v.sha256_hex content)
      place_upload same (trim_space raw) (lower_ext (trim_space raw) v) content
          (upload_row u parent content v))
      v
