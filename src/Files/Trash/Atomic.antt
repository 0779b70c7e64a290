-- ===== src/Files/Trash/Atomic.antt =====
-- `DeleteFile` changes all of what it changes or nothing.
use networkdisk.Prelude.{ℕ, ◌≡◌, false, arith}
use networkdisk.Model.{Env, World}
use networkdisk.Exec.{Error, err, tick}
use networkdisk.Files.Trash.{delete_file}
use networkdisk.Files.Trash.Subtree.{subtree-db}
use networkdisk.Store.Tx.{batch_soft_delete, update_user_storage_used}
use networkdisk.Store.Files.{file_by_id}

-- A deletion that returns an error has left the database as it was, whichever call failed.
pub delete_file_err-db :
    (i u : ℕ) (v : Env) (w : World) (e : Error)
    → (delete_file i u v w).0 ≡ err e
    → (delete_file i u v w).1.db ≡ w.db
unfolding delete_file file_by_id batch_soft_delete update_user_storage_used
delete_file_err-db i u v w e h = ground (arith, subtree-db i false v (tick w))
