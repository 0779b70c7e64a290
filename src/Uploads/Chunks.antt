-- ===== src/Uploads/Chunks.antt =====
-- internal/service/file.go: uploads in chunks. A session is a directory with session.json and a file
-- for each chunk that has come; `CompleteUpload` joins the chunks.
use networkdisk.Prelude.{
  ℕ, zero, suc, ◌+◌, ◌-◌, ◌*◌, ◌/◌, Bool, true, false, not, ◌&&◌, Option, none, some, List, [], ◌∷◌,
  ◌++◌, ltb, leb, ◌==◌, if◌then◌else◌, length, first, select, update,
}
use networkdisk.Text.{Text, text_eq, trim_space, leading}
use networkdisk.Model.{File, Env, World, UploadSession, UploadDir}
use networkdisk.Exec.{
  disk_failure, tick, ok, err, file_too_large, bad_size, missing_name, no_session, not_your_session,
  bad_chunk, missing_chunk, Exec, pure, raise, refuse_if, io, ask, draw, ◌>>=◌, ◌>>◌,
}
use networkdisk.Store.Sql.{is_empty}
use networkdisk.Files.Guards.{validate_parent, validate_extension, resolve_name_conflict}
use networkdisk.Files.Place.{new_file}
use networkdisk.Uploads.{
  UploadResult, lower_ext, find_by_hash, generate_storage_key, move_to_storage, place_duplicate,
  place_new,
}

-- 10 MiB where the configured size is not positive.
abbrev pub chunk_size_of : Env → ℕ
chunk_size_of v = if v.cfg.chunk_size == 0 then 10 * 1048576 else v.cfg.chunk_size

abbrev pub chunks_for : ℕ → ℕ → ℕ
chunks_for total size = (total + size - 1) / size

abbrev pub is_upload : Text → UploadDir → Bool
is_upload i x = text_eq x.session.upload_id i

abbrev pub new_dir : UploadSession → ℕ → UploadDir
new_dir s now = record { session = s; chunks = λ i. none; modified = now }

-- The directory of an id that is drawn again keeps its chunks, and its session is replaced.
unfoldable pub saved : UploadSession → ℕ → List UploadDir → List UploadDir
saved s now ups = elim (first (is_upload s.upload_id) ups) [
  | none ↦ new_dir s now ∷ ups
  | some x ↦ record x { session = s } ∷ select (λ y. not (is_upload s.upload_id y)) ups
]

unfoldable pub save_upload_session : UploadSession → Exec (Unit {0})
unfolding io
save_upload_session s = io (λ v w. (ok tt, record w { uploads = saved s w.now w.uploads }))

unfoldable pub load_upload_session : Text → Exec UploadDir
load_upload_session i v w = elim (first (is_upload i) w.uploads) [
  | none ↦ (err no_session, w)
  | some x ↦ (ok x, w)
]

unfoldable pub load_own : Text → ℕ → Exec UploadDir
unfolding ◌>>=◌ refuse_if
load_own i u = do
  x ← load_upload_session i
  refuse_if (not (x.session.user_id == u)) not_your_session
  pure x

abbrev pub without_upload : Text → World → World
without_upload i w = record w { uploads = select (λ x. not (is_upload i x)) w.uploads }

-- The error of `os.RemoveAll` is dropped.
unfoldable pub cleanup_upload_session : Text → Exec (Unit {0})
cleanup_upload_session i v w = (ok tt, without_upload i w)

abbrev pub session_of : ℕ → Option ℕ → Text → ℕ → Text → Env → World → UploadSession
session_of u parent n total i v w = record {
  upload_id = i;
  user_id = u;
  parent_id = parent;
  name = n;
  total_size = total;
  chunk_size = chunk_size_of v;
  chunk_count = chunks_for total (chunk_size_of v);
  created_at = w.now;
}

-- The id and the size of a chunk.
unfoldable pub init_upload : ℕ → Option ℕ → Text → ℕ → Exec (Text × ℕ)
unfolding ◌>>=◌ refuse_if
init_upload u parent raw total v =
    (do
      refuse_if (is_empty (trim_space raw)) missing_name
      refuse_if (total == 0) bad_size
      refuse_if (ltb v.cfg.max_file_size total) file_too_large
      validate_parent parent u
      validate_extension (lower_ext (trim_space raw) v)
      i ← draw
      s ← ask (session_of u parent (trim_space raw) total i)
      save_upload_session s
      pure (i, chunk_size_of v))
      v

-- A directory's time changes where a name in it comes or goes.
abbrev pub put_chunk : ℕ → Text → ℕ → UploadDir → UploadDir
put_chunk k content now x = record x {
  chunks = λ j. if j == k then some content else x.chunks j;
  modified = elim (x.chunks k) [ none ↦ now | some c ↦ x.modified ];
}

abbrev pub drop_chunk : ℕ → ℕ → UploadDir → UploadDir
drop_chunk k now x = record x { chunks = λ j. if j == k then none else x.chunks j; modified = now }

abbrev pub change_upload : Text → (UploadDir → UploadDir) → World → World
change_upload i f w = record w { uploads = update (is_upload i) f w.uploads }

-- The content goes to the chunk's file; if that fails the file is removed.
unfoldable pub store_chunk : Text → ℕ → Text → Exec (Unit {0})
store_chunk i k content v w =
    if w.faults w.calls
    then (err disk_failure, change_upload i (drop_chunk k w.now) (tick w))
    else (ok tt, change_upload i (put_chunk k content w.now) (tick w))

-- At most `chunk_size` bytes are read. An index is not negative.
unfoldable pub upload_chunk : Text → ℕ → Text → ℕ → Exec (Unit {0})
unfolding ◌>>=◌ refuse_if io
upload_chunk i k body u = do
  x ← load_own i u
  refuse_if (leb x.session.chunk_count k) bad_chunk
  io (pure tt)
  io (pure tt)
  store_chunk i k (leading x.session.chunk_size body)

-- The loop of `os.Stat`, from chunk `k` on, `rounds` of them.
unfoldable pub check_chunks : UploadDir → ℕ → ℕ → Exec (Unit {0})
unfolding ◌>>=◌
check_chunks x k zero = pure tt
check_chunks x k (suc rounds) = elim (x.chunks k) [
  | none ↦ raise (missing_chunk k)
  | some c ↦ check_chunks x (k + 1) rounds
]

-- The loop that joins the chunks.
unfoldable pub merge_chunks : UploadDir → ℕ → ℕ → Exec Text
unfolding ◌>>=◌ io
merge_chunks x k zero = pure []
merge_chunks x k (suc rounds) = elim (x.chunks k) [
  | none ↦ raise (missing_chunk k)
  | some c ↦ do io (pure tt); rest ← merge_chunks x (k + 1) rounds; pure (c ++ rest)
]

-- The size of the row is the size that was announced.
abbrev pub session_row : UploadSession → Text → Env → File
session_row s content v =
    new_file s.user_id s.parent_id s.name false s.total_size (v.sha256_hex content) [] [] []

-- Where the data is known the name may change, and an overwritten row is kept; where it is not, the
-- name is taken as it is.
unfoldable pub place_session : Option File → Text → Text → Text → File → Exec UploadResult
unfolding ◌>>=◌
place_session (some same) i e content f = do
  cleanup_upload_session i
  r ← resolve_name_conflict f.name e f.parent_id f.user_id
  row ← place_duplicate none (record f { name = r.0; storage_key = same.storage_key })
  pure (record { file = row; duplicate = true })
place_session none i e content f = do
  key ← generate_storage_key e
  move_to_storage key content
  row ← place_new key none (record f { storage_key = key })
  cleanup_upload_session i
  pure (record { file = row; duplicate = false })

unfoldable pub complete_upload : Text → ℕ → Exec UploadResult
unfolding ◌>>=◌ io
complete_upload i u v =
    (do
      x ← load_own i u
      check_chunks x 0 x.session.chunk_count
      io (pure tt)
      content ← merge_chunks x 0 x.session.chunk_count
      same ← find_by_hash (v.sha256_hex content)
      place_session same i (lower_ext x.session.name v) content (session_row x.session content v))
      v

-- The indices of the chunks that have come.
abbrev pub completed_from : UploadDir → ℕ → ℕ → List ℕ
completed_from x k zero = []
completed_from x k (suc rounds) =
    let rest = completed_from x (k + 1) rounds in
    elim (x.chunks k) [ none ↦ rest | some c ↦ k ∷ rest ]

unfoldable pub upload_status : Text → ℕ → Exec (UploadSession × List ℕ)
unfolding ◌>>=◌
upload_status i u = do x ← load_own i u; pure (x.session, completed_from x 0 x.session.chunk_count)

unfoldable pub cancel_upload : Text → ℕ → Exec (Unit {0})
unfolding ◌>>=◌
cancel_upload i u = do x ← load_own i u; cleanup_upload_session i

-- A directory that has not changed for a minute and whose session is older than the timeout.
abbrev pub is_stale : Env → ℕ → UploadDir → Bool
is_stale v now x =
    leb (x.modified + 60) now && ltb (x.session.created_at + v.cfg.chunk_clean_timeout) now

-- Directories whose removal fails stay, until the next time.
unfoldable pub clean_stale_chunks : Exec ℕ
clean_stale_chunks v w = (
  ok (length (select (is_stale v w.now) w.uploads)),
  record w { uploads = select (λ x. not (is_stale v w.now x)) w.uploads },
)
