-- ===== src/Files/Quota/Copied.antt =====
-- A copy is charged for exactly.
use networkdisk.Prelude.{ℕ, ◌+◌, ◌≡◌, refl, inl, inr, Option, arith, select}
use networkdisk.Prelude.Int.{pos}
use networkdisk.Text.{Text}
use networkdisk.Model.{File, Db, Env, World}
use networkdisk.Store.Sql.{insert_row}
use networkdisk.Store.Users.{update_users, add_used}
use networkdisk.Files.Place.{copy_file, copy_of}
use networkdisk.Files.Place.Copy.{Copied, copy_file-Copied}
use networkdisk.Files.Quota.Calibrate.{active, IsCharged}
use networkdisk.Files.Quota.Charged.{IsCharged-by}

insert-active :
    (u : ℕ) (src : File) (target : Option ℕ) (n : Text) (d : Db)
    → active u (insert_row (copy_of src target u n) d) ≡ src.size + active u d
unfolding select
insert-active u src target n d = ground arith

Copied-IsCharged :
    (u : ℕ) (src : File) (target : Option ℕ) (n : Text) (d d' : Db)
    → Copied src target u n d d'
    → IsCharged u d
    → IsCharged u d'
Copied-IsCharged u src target n d d' (inl same) c = rw same c
Copied-IsCharged u src target n d d' (inr e) c =
    let a = insert-active u src target n d in
    rw e (
      IsCharged-by u (pos src.size) d
        (update_users u (add_used (pos src.size)) (insert_row (copy_of src target u n) d)) c refl
        (omega (arith, a)))

-- A call of `copy_file` by a user who is charged for exactly the bytes of the user's live files leaves
-- the user charged so, whether it succeeds or fails.
pub copy_file-IsCharged :
    (i : ℕ) (target : Option ℕ) (u : ℕ) (v : Env) (w : World)
    → IsCharged u w.db
    → IsCharged u (copy_file i target u v w).1.db
copy_file-IsCharged i target u v w c = elim (copy_file-Copied i u v w target) [
  | inl same ↦ rw same c
  | inr (src, n, k) ↦ Copied-IsCharged u src target n w.db (copy_file i target u v w).1.db k c
]
