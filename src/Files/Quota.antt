-- ===== src/Files/Quota.antt =====
-- internal/service/file.go: the storage that a user is charged for.
pub mod Calibrate
pub mod Charged
pub mod Copied
use networkdisk.Prelude.{ℕ, suc, zero, ◌+◌, Bool, Option, none, some, List, [], ◌∷◌, if◌then◌else◌}
use networkdisk.Prelude.Int.{ℤ, pos, is_zero, ◌-ℤ◌}
use networkdisk.Model.{User}
use networkdisk.Exec.{Exec, pure, attempt, ◌>>=◌, ◌>>◌}
use networkdisk.Store.Files
use networkdisk.Store.Users

-- The active and the recycled bytes, and what the user is charged.
unfoldable pub storage_stats : ℕ → Exec (ℕ × ℕ × ℕ)
unfolding ◌>>=◌
storage_stats u = do
  active ← Files.sum_active_storage u
  recycle ← Files.sum_recycle_storage u
  user ← Users.user_by_id u
  pure (active, recycle, user.storage_used)

unfoldable pub calibrate_storage : ℕ → Exec (Unit {0})
unfolding ◌>>=◌
calibrate_storage u = do
  actual ← Files.sum_active_storage u
  user ← Users.user_by_id u
  (let delta = pos actual -ℤ pos user.storage_used in
      if is_zero delta then pure tt else Users.update_user_storage_used u delta)
