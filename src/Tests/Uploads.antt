-- ===== src/Tests/Uploads.antt =====
-- The theorems on uploads at concrete inputs: user 1 uploads to the directory of the sample.
use networkdisk.Prelude.{
  ℕ, ◌≤◌, ◌==◌, ◌⊎◌, inl, inr, Bool-cases, ◌<◌, ◌≡◌, refl, Bool, true, false, none, some, Option,
  List, [], ◌∷◌, In, here, there, arith, length, first,
}
use networkdisk.Text.{Text, bytes}
use networkdisk.Model.{World, UploadDir, UploadSession}
use networkdisk.Exec.{tick, Result, ok, err, no_session, file_too_large}
use networkdisk.Steps.{Reach, done}
use networkdisk.Files.Requests.{serve, serve-Reach, looks_at_names}
use networkdisk.Files.Requests as Files
use networkdisk.Uploads.{UploadResult, upload_file, upload_row}
use networkdisk.Uploads.Chunks as Chunks
use networkdisk.Uploads.Chunks.{chunks_for, session_of, is_upload, new_dir, saved}
use networkdisk.Uploads.Owned.{IsReady}
use networkdisk.Uploads.Requests as Requests
use networkdisk.Uploads.Requests.{handle, handle-Reach, Trace, start, call, other, Trace-IsReady}
use networkdisk.Uploads.Sent.{NoFaults, send, send-joined}
use networkdisk.Uploads.Stored.{IsStored}
use networkdisk.Uploads.Kept.{IsCompleted, complete_upload-IsCompleted, upload_file-IsStored}
use networkdisk.Tests.Sample.{sample_env, sample_db, sample_world, sample-IsSound}

sample-IsReady : IsReady sample_world
sample-IsReady = record { sound = sample-IsSound; sessions = λ x m. absurd (elim m [ ]) }

-- The id that is drawn first.
abbrev first_id : Text
first_id = 0 ∷ []

abbrev opened : World
opened = (Chunks.init_upload 1 (some 1) (bytes "n.txt") 3 sample_env sample_world).1

-- Chunk 1 comes before chunk 0.
abbrev filled : World
filled = send first_id (bytes "xyz") 2 (1 ∷ 0 ∷ []) 1 sample_env opened

abbrev completed : Result UploadResult × World
completed = Chunks.complete_upload first_id 1 sample_env filled

-- The result of an upload of a content as a row of a name.
abbrev row_result : Text → Text → Text → UploadResult
row_result content n key = record {
  file = record (upload_row 1 (some 1) content sample_env) { id = 4; name = n; storage_key = key };
  duplicate = false;
}

abbrev session : UploadSession
session = session_of 1 (some 1) (bytes "n.txt") 3 first_id sample_env sample_world

sent_first : first (is_upload first_id) opened.uploads ≡ some (new_dir session 100)
unfolding Chunks.complete_upload Chunks.load_own Chunks.load_upload_session first send
    Chunks.upload_chunk Chunks.init_upload networkdisk.Text.trim_space
    networkdisk.Files.Guards.validate_parent_dir networkdisk.Store.Files.file_by_id
    networkdisk.Files.Guards.validate_extension networkdisk.Text.text_eq networkdisk.Text.ext
    networkdisk.Exec.draw Chunks.save_upload_session Chunks.saved Chunks.store_chunk
    networkdisk.Prelude.update networkdisk.Exec.call networkdisk.Exec.io networkdisk.Exec.on_no_rows
    networkdisk.Exec.refuse_if networkdisk.Exec.settle networkdisk.Exec.transaction
    networkdisk.Exec.◌>>=◌ networkdisk.Files.Guards.free_name
    networkdisk.Files.Guards.resolve_name_conflict networkdisk.Prelude.Int.◌+ℤ◌
    networkdisk.Prelude.Int.◌-ℤ◌ networkdisk.Prelude.any networkdisk.Prelude.select
    networkdisk.Store.Files.file_by_hash networkdisk.Store.Files.file_by_name
    networkdisk.Store.Files.file_name_exists networkdisk.Store.Tx.batch_soft_delete
    networkdisk.Store.Tx.create_file networkdisk.Store.Tx.file_by_id
    networkdisk.Store.Tx.update_user_storage_used networkdisk.Store.Users.add_used
    networkdisk.Text.decimal networkdisk.Text.numbered networkdisk.Text.strip_prefix
    networkdisk.Text.trim_suffix Chunks.check_chunks Chunks.cleanup_upload_session
    Chunks.merge_chunks Chunks.place_session networkdisk.Uploads.find_by_hash
    networkdisk.Uploads.generate_storage_key networkdisk.Uploads.move_to_storage
    networkdisk.Uploads.or_forget networkdisk.Uploads.place_duplicate networkdisk.Uploads.place_new
    networkdisk.Uploads.retire networkdisk.Uploads.settle_or_forget upload_file
    networkdisk.Uploads.receive networkdisk.Uploads.place_upload
sent_first = refl

abbrev whole : Result UploadResult × World
whole = upload_file (bytes "pqr") (bytes "p.txt") (some 1) 1 sample_env sample_world

opened-NoFaults : NoFaults opened
unfolding Chunks.complete_upload Chunks.load_own Chunks.load_upload_session first send
    Chunks.upload_chunk Chunks.init_upload networkdisk.Text.trim_space
    networkdisk.Files.Guards.validate_parent_dir networkdisk.Store.Files.file_by_id
    networkdisk.Files.Guards.validate_extension networkdisk.Text.text_eq networkdisk.Text.ext
    networkdisk.Exec.draw Chunks.save_upload_session Chunks.saved Chunks.store_chunk
    networkdisk.Prelude.update networkdisk.Exec.call networkdisk.Exec.io networkdisk.Exec.on_no_rows
    networkdisk.Exec.refuse_if networkdisk.Exec.settle networkdisk.Exec.transaction
    networkdisk.Exec.◌>>=◌ networkdisk.Files.Guards.free_name
    networkdisk.Files.Guards.resolve_name_conflict networkdisk.Prelude.Int.◌+ℤ◌
    networkdisk.Prelude.Int.◌-ℤ◌ networkdisk.Prelude.any networkdisk.Prelude.select
    networkdisk.Store.Files.file_by_hash networkdisk.Store.Files.file_by_name
    networkdisk.Store.Files.file_name_exists networkdisk.Store.Tx.batch_soft_delete
    networkdisk.Store.Tx.create_file networkdisk.Store.Tx.file_by_id
    networkdisk.Store.Tx.update_user_storage_used networkdisk.Store.Users.add_used
    networkdisk.Text.decimal networkdisk.Text.numbered networkdisk.Text.strip_prefix
    networkdisk.Text.trim_suffix Chunks.check_chunks Chunks.cleanup_upload_session
    Chunks.merge_chunks Chunks.place_session networkdisk.Uploads.find_by_hash
    networkdisk.Uploads.generate_storage_key networkdisk.Uploads.move_to_storage
    networkdisk.Uploads.or_forget networkdisk.Uploads.place_duplicate networkdisk.Uploads.place_new
    networkdisk.Uploads.retire networkdisk.Uploads.settle_or_forget upload_file
    networkdisk.Uploads.receive networkdisk.Uploads.place_upload
opened-NoFaults n = refl

completed_ok : completed.0 ≡ ok (row_result (bytes "xyz") (bytes "n.txt") (1 ∷ bytes ".txt"))
unfolding Chunks.complete_upload Chunks.load_own Chunks.load_upload_session first send
    Chunks.upload_chunk Chunks.init_upload networkdisk.Text.trim_space
    networkdisk.Files.Guards.validate_parent_dir networkdisk.Store.Files.file_by_id
    networkdisk.Files.Guards.validate_extension networkdisk.Text.text_eq networkdisk.Text.ext
    networkdisk.Exec.draw Chunks.save_upload_session Chunks.saved Chunks.store_chunk
    networkdisk.Prelude.update networkdisk.Exec.call networkdisk.Exec.io networkdisk.Exec.on_no_rows
    networkdisk.Exec.refuse_if networkdisk.Exec.settle networkdisk.Exec.transaction
    networkdisk.Exec.◌>>=◌ networkdisk.Files.Guards.free_name
    networkdisk.Files.Guards.resolve_name_conflict networkdisk.Prelude.Int.◌+ℤ◌
    networkdisk.Prelude.Int.◌-ℤ◌ networkdisk.Prelude.any networkdisk.Prelude.select
    networkdisk.Store.Files.file_by_hash networkdisk.Store.Files.file_by_name
    networkdisk.Store.Files.file_name_exists networkdisk.Store.Tx.batch_soft_delete
    networkdisk.Store.Tx.create_file networkdisk.Store.Tx.file_by_id
    networkdisk.Store.Tx.update_user_storage_used networkdisk.Store.Users.add_used
    networkdisk.Text.decimal networkdisk.Text.numbered networkdisk.Text.strip_prefix
    networkdisk.Text.trim_suffix Chunks.check_chunks Chunks.cleanup_upload_session
    Chunks.merge_chunks Chunks.place_session networkdisk.Uploads.find_by_hash
    networkdisk.Uploads.generate_storage_key networkdisk.Uploads.move_to_storage
    networkdisk.Uploads.or_forget networkdisk.Uploads.place_duplicate networkdisk.Uploads.place_new
    networkdisk.Uploads.retire networkdisk.Uploads.settle_or_forget upload_file
    networkdisk.Uploads.receive networkdisk.Uploads.place_upload
completed_ok = refl

whole_ok : whole.0 ≡ ok (row_result (bytes "pqr") (bytes "p.txt") (0 ∷ bytes ".txt"))
unfolding Chunks.complete_upload Chunks.load_own Chunks.load_upload_session first send
    Chunks.upload_chunk Chunks.init_upload networkdisk.Text.trim_space
    networkdisk.Files.Guards.validate_parent_dir networkdisk.Store.Files.file_by_id
    networkdisk.Files.Guards.validate_extension networkdisk.Text.text_eq networkdisk.Text.ext
    networkdisk.Exec.draw Chunks.save_upload_session Chunks.saved Chunks.store_chunk
    networkdisk.Prelude.update networkdisk.Exec.call networkdisk.Exec.io networkdisk.Exec.on_no_rows
    networkdisk.Exec.refuse_if networkdisk.Exec.settle networkdisk.Exec.transaction
    networkdisk.Exec.◌>>=◌ networkdisk.Files.Guards.free_name
    networkdisk.Files.Guards.resolve_name_conflict networkdisk.Prelude.Int.◌+ℤ◌
    networkdisk.Prelude.Int.◌-ℤ◌ networkdisk.Prelude.any networkdisk.Prelude.select
    networkdisk.Store.Files.file_by_hash networkdisk.Store.Files.file_by_name
    networkdisk.Store.Files.file_name_exists networkdisk.Store.Tx.batch_soft_delete
    networkdisk.Store.Tx.create_file networkdisk.Store.Tx.file_by_id
    networkdisk.Store.Tx.update_user_storage_used networkdisk.Store.Users.add_used
    networkdisk.Text.decimal networkdisk.Text.numbered networkdisk.Text.strip_prefix
    networkdisk.Text.trim_suffix Chunks.check_chunks Chunks.cleanup_upload_session
    Chunks.merge_chunks Chunks.place_session networkdisk.Uploads.find_by_hash
    networkdisk.Uploads.generate_storage_key networkdisk.Uploads.move_to_storage
    networkdisk.Uploads.or_forget networkdisk.Uploads.place_duplicate networkdisk.Uploads.place_new
    networkdisk.Uploads.retire networkdisk.Uploads.settle_or_forget upload_file
    networkdisk.Uploads.receive networkdisk.Uploads.place_upload
whole_ok = refl

too_large :
    (upload_file (bytes "pqrst") (bytes "p.txt") (some 1) 1 sample_env sample_world).0
    ≡ err file_too_large
unfolding Chunks.complete_upload Chunks.load_own Chunks.load_upload_session first send
    Chunks.upload_chunk Chunks.init_upload networkdisk.Text.trim_space
    networkdisk.Files.Guards.validate_parent_dir networkdisk.Store.Files.file_by_id
    networkdisk.Files.Guards.validate_extension networkdisk.Text.text_eq networkdisk.Text.ext
    networkdisk.Exec.draw Chunks.save_upload_session Chunks.saved Chunks.store_chunk
    networkdisk.Prelude.update networkdisk.Exec.call networkdisk.Exec.io networkdisk.Exec.on_no_rows
    networkdisk.Exec.refuse_if networkdisk.Exec.settle networkdisk.Exec.transaction
    networkdisk.Exec.◌>>=◌ networkdisk.Files.Guards.free_name
    networkdisk.Files.Guards.resolve_name_conflict networkdisk.Prelude.Int.◌+ℤ◌
    networkdisk.Prelude.Int.◌-ℤ◌ networkdisk.Prelude.any networkdisk.Prelude.select
    networkdisk.Store.Files.file_by_hash networkdisk.Store.Files.file_by_name
    networkdisk.Store.Files.file_name_exists networkdisk.Store.Tx.batch_soft_delete
    networkdisk.Store.Tx.create_file networkdisk.Store.Tx.file_by_id
    networkdisk.Store.Tx.update_user_storage_used networkdisk.Store.Users.add_used
    networkdisk.Text.decimal networkdisk.Text.numbered networkdisk.Text.strip_prefix
    networkdisk.Text.trim_suffix Chunks.check_chunks Chunks.cleanup_upload_session
    Chunks.merge_chunks Chunks.place_session networkdisk.Uploads.find_by_hash
    networkdisk.Uploads.generate_storage_key networkdisk.Uploads.move_to_storage
    networkdisk.Uploads.or_forget networkdisk.Uploads.place_duplicate networkdisk.Uploads.place_new
    networkdisk.Uploads.retire networkdisk.Uploads.settle_or_forget upload_file
    networkdisk.Uploads.receive networkdisk.Uploads.place_upload
too_large = refl

-- A session that is completed is gone.
completed_gone : (Chunks.complete_upload first_id 1 sample_env completed.1).0 ≡ err no_session
unfolding Chunks.complete_upload Chunks.load_own Chunks.load_upload_session first send
    Chunks.upload_chunk Chunks.init_upload networkdisk.Text.trim_space
    networkdisk.Files.Guards.validate_parent_dir networkdisk.Store.Files.file_by_id
    networkdisk.Files.Guards.validate_extension networkdisk.Text.text_eq networkdisk.Text.ext
    networkdisk.Exec.draw Chunks.save_upload_session Chunks.saved Chunks.store_chunk
    networkdisk.Prelude.update networkdisk.Exec.call networkdisk.Exec.io networkdisk.Exec.on_no_rows
    networkdisk.Exec.refuse_if networkdisk.Exec.settle networkdisk.Exec.transaction
    networkdisk.Exec.◌>>=◌ networkdisk.Files.Guards.free_name
    networkdisk.Files.Guards.resolve_name_conflict networkdisk.Prelude.Int.◌+ℤ◌
    networkdisk.Prelude.Int.◌-ℤ◌ networkdisk.Prelude.any networkdisk.Prelude.select
    networkdisk.Store.Files.file_by_hash networkdisk.Store.Files.file_by_name
    networkdisk.Store.Files.file_name_exists networkdisk.Store.Tx.batch_soft_delete
    networkdisk.Store.Tx.create_file networkdisk.Store.Tx.file_by_id
    networkdisk.Store.Tx.update_user_storage_used networkdisk.Store.Users.add_used
    networkdisk.Text.decimal networkdisk.Text.numbered networkdisk.Text.strip_prefix
    networkdisk.Text.trim_suffix Chunks.check_chunks Chunks.cleanup_upload_session
    Chunks.merge_chunks Chunks.place_session networkdisk.Uploads.find_by_hash
    networkdisk.Uploads.generate_storage_key networkdisk.Uploads.move_to_storage
    networkdisk.Uploads.or_forget networkdisk.Uploads.place_duplicate networkdisk.Uploads.place_new
    networkdisk.Uploads.retire networkdisk.Uploads.settle_or_forget upload_file
    networkdisk.Uploads.receive networkdisk.Uploads.place_upload
completed_gone = refl

serve-Reach_example :
    Reach sample_env 1
      (looks_at_names (Files.rename_file 2 (bytes "c.txt")))
      sample_db
      (serve 1 (Files.rename_file 2 (bytes "c.txt")) sample_env sample_world).db
serve-Reach_example =
    serve-Reach 1 (Files.rename_file 2 (bytes "c.txt")) sample_env sample_world sample-IsSound

abbrev upload : Requests.Call
upload = Requests.upload_file (bytes "pqr") (bytes "p.txt") (some 1)

handle-Reach_example :
    Reach sample_env 1 false sample_db (handle 1 upload sample_env sample_world).db
handle-Reach_example = handle-Reach 1 sample_env sample_world sample-IsReady upload

-- A session is opened and a chunk sent, user 2 does nothing, and the session is completed.
abbrev begun : World
begun = handle 1 (Requests.init_upload (some 1) (bytes "n.txt") 3) sample_env sample_world

abbrev half : World
half = handle 1 (Requests.upload_chunk first_id 1 (bytes "z")) sample_env begun

trace : Trace sample_env sample_world (handle 1 (Requests.complete_upload first_id) sample_env half)
trace = call 1 (Requests.complete_upload first_id) (
    other 2
      (call 1 (Requests.upload_chunk first_id 1 (bytes "z"))
        (call 1 (Requests.init_upload (some 1) (bytes "n.txt") 3) start))
      (done refl) refl)

Trace-IsReady_example : IsReady (handle 1 (Requests.complete_upload first_id) sample_env half)
Trace-IsReady_example = Trace-IsReady trace sample-IsReady

below_two : (k : ℕ) → k < 2 → In k (1 ∷ 0 ∷ [])
below_two k h = elim (Bool-cases (k == 0)) [
  | inl e ↦ there (here (ground arith))
  | inr e ↦ here (ground arith)
]

abbrev Joined : Type 0
Joined =
    (y : UploadDir) × ((Chunks.load_own first_id 1 sample_env filled).0 ≡ ok y)
    × (y.session ≡ session)
    × ((Chunks.check_chunks y 0 2 sample_env filled).0 ≡ ok tt)
    × ((Chunks.merge_chunks y 0 2 sample_env (tick filled)).0 ≡ ok (bytes "xyz"))

send-joined_example : Joined
send-joined_example =
    send-joined first_id (bytes "xyz") session (1 ∷ 0 ∷ []) sample_env opened (new_dir session 100)
      opened-NoFaults sent_first refl (omega arith) refl below_two

complete_upload-IsCompleted_example :
    IsCompleted first_id 1 sample_env filled
      (row_result (bytes "xyz") (bytes "n.txt") (1 ∷ bytes ".txt"))
complete_upload-IsCompleted_example =
    complete_upload-IsCompleted first_id 1 sample_env filled
      (row_result (bytes "xyz") (bytes "n.txt") (1 ∷ bytes ".txt")) completed_ok

upload_file-IsStored_example :
    (length (bytes "pqr") ≤ 4)
    × IsStored
        (upload_row 1 (some 1) (bytes "pqr") sample_env)
        (bytes "pqr")
        (row_result (bytes "pqr") (bytes "p.txt") (0 ∷ bytes ".txt"))
        whole.1.disk
upload_file-IsStored_example =
    upload_file-IsStored (bytes "pqr") (bytes "p.txt") 1 sample_env sample_world
      (row_result (bytes "pqr") (bytes "p.txt") (0 ∷ bytes ".txt")) (some 1) whole_ok

abbrev sent_dir : UploadDir
sent_dir = record (new_dir session 100) { chunks = λ k. some (bytes "xyz") }

-- An id that is drawn again keeps its chunks.
redrawn_keeps : saved session 200 (sent_dir ∷ []) ≡ sent_dir ∷ []
unfolding saved first networkdisk.Text.text_eq networkdisk.Prelude.select
redrawn_keeps = refl
