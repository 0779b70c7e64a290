-- ===== src/Tests/Requests.antt =====
-- The theorems at concrete inputs: the requests of user 1 in the sample.
use networkdisk.Prelude.{
  select, ℕ, ◌≡◌, refl, false, true, none, some, List, [], ◌∷◌, here, In, All, any, arith,
}
use networkdisk.Text.{bytes}
use networkdisk.Model.{File}
use networkdisk.Exec.{ok, err, file_not_found}
use networkdisk.Store.Tree.{descendants}
use networkdisk.Store.Tree.Below.{Below, descendants-Below}
use networkdisk.Steps.Sound.{IsSound}
use networkdisk.Steps.Foreign.{SameForeign}
use networkdisk.Steps.Names.{NamesApart}
use networkdisk.Files.Requests.{
  Request, rename_file, move_file, delete_file, copy_file, run, of_user, run-IsSound,
  run-SameForeign, run-NamesApart,
}
use networkdisk.Files.Trash as Trash
use networkdisk.Files.Trash.Atomic.{delete_file_err-db}
use networkdisk.Files.Quota.{calibrate_storage}
use networkdisk.Files.Quota.Calibrate.{IsCharged, UniqueUsers}
use networkdisk.Files.Place as Place
use networkdisk.Files.Quota.Copied.{copy_file-IsCharged}
use networkdisk.Files.Quota.Charged.{calibrate_storage-IsCharged}
use networkdisk.Tests.Sample.{
  sample_env, sample_files, sample_db, sample_world, row_of, sample-IsSound, sample-NamesApart,
  sample-IsCollation, In-All,
}

-- Renames `a.txt`, copies it, moves the copy to the root, and deletes the directory.
abbrev session : List Request
session =
    rename_file 2 (bytes "c.txt") ∷ copy_file 2 (some 1) ∷ move_file 4 none ∷ delete_file 1 ∷ []

run-SameForeign_example :
    SameForeign 1 sample_db (run (of_user 1 session) sample_env sample_world).db
run-SameForeign_example = run-SameForeign 1 session sample_env sample_world sample-IsSound

run-IsSound_example : IsSound (run (of_user 1 session) sample_env sample_world).db
run-IsSound_example = run-IsSound (of_user 1 session) sample_env sample_world sample-IsSound

run-NamesApart_example : NamesApart sample_env (run (of_user 1 session) sample_env sample_world).db
run-NamesApart_example =
    run-NamesApart (of_user 1 session) sample_env sample_world sample-IsCollation sample-IsSound
      sample-NamesApart (refl, (refl, (refl, (refl, tt))))

abbrev below_docs : List File
below_docs = row_of 2 1 (some 1) (bytes "a.txt") false 30 ∷ []

docs-descendants : descendants sample_env sample_db 1 ≡ some below_docs
unfolding descendants networkdisk.Prelude.select
docs-descendants = refl

descendants-Below_example :
    (In (row_of 2 1 (some 1) (bytes "a.txt") false 30) below_docs
      → Below sample_files 1 (row_of 2 1 (some 1) (bytes "a.txt") false 30))
    × (Below sample_files 1 (row_of 2 1 (some 1) (bytes "a.txt") false 30)
        → In (row_of 2 1 (some 1) (bytes "a.txt") false 30) below_docs)
descendants-Below_example =
    descendants-Below sample_env sample_db 1 below_docs docs-descendants
      (row_of 2 1 (some 1) (bytes "a.txt") false 30)

foreign_deletion : (Trash.delete_file 3 1 sample_env sample_world).0 ≡ err file_not_found
unfolding Trash.delete_file networkdisk.Store.Files.file_by_id networkdisk.Prelude.first
foreign_deletion = refl

delete_file_err-db_example : (Trash.delete_file 3 1 sample_env sample_world).1.db ≡ sample_db
delete_file_err-db_example =
    delete_file_err-db 3 1 sample_env sample_world file_not_found foreign_deletion

sample-UniqueUsers : UniqueUsers sample_db
sample-UniqueUsers x y m n =
    In-All (λ y. x.id ≡ y.id → x ≡ y) sample_db.users
      (In-All (λ x. All (λ y. x.id ≡ y.id → x ≡ y) sample_db.users) sample_db.users (ground arith) x
        m)
      y n

calibration : (calibrate_storage 1 sample_env sample_world).0 ≡ ok tt
unfolding calibrate_storage networkdisk.Store.Files.sum_active_storage
    networkdisk.Store.Users.user_by_id networkdisk.Prelude.first networkdisk.Prelude.Int.◌-ℤ◌
    networkdisk.Prelude.select
calibration = refl

calibrate_storage-IsCharged_example : IsCharged 1 (calibrate_storage 1 sample_env sample_world).1.db
calibrate_storage-IsCharged_example =
    calibrate_storage-IsCharged 1 sample_env sample_world sample-UniqueUsers calibration

sample-IsCharged : IsCharged 1 sample_db
unfolding select
sample-IsCharged = In-All (λ x. x.id ≡ 1 → x.storage_used ≡ 30) sample_db.users (ground arith)

copy_file-IsCharged_example : IsCharged 1 (Place.copy_file 2 none 1 sample_env sample_world).1.db
copy_file-IsCharged_example = copy_file-IsCharged 2 none 1 sample_env sample_world sample-IsCharged
