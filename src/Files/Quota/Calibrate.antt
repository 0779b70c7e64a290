-- ===== src/Files/Quota/Calibrate.antt =====
-- `CalibrateStorage` makes what a user is charged equal to the bytes of the user's live files.
use networkdisk.Prelude.{
  ℕ, ◌≡◌, refl, ◌⊎◌, inl, inr, Bool, false, none, some, arith, ◌==◌, Option-cases, In, first,
  select,
}
use networkdisk.Prelude.Int.{pos, ◌-ℤ◌}
use networkdisk.Model.{User, Db, Env, World}
use networkdisk.Store.Sql.{counts_for, total_size}
use networkdisk.Store.Users.{update_users, add_used, update_user_storage_used, user_by_id}
use networkdisk.Store.Files.{sum_active_storage}
use networkdisk.Steps.{Reach, charge, done, step}
use networkdisk.Files.Quota.{calibrate_storage}

-- The bytes of the live files of a user.
abbrev pub active : ℕ → Db → ℕ
active u d = total_size (select (counts_for u false) d.files)

-- The user is charged for exactly these.
abbrev pub IsCharged : ℕ → Db → Type 0
IsCharged u d = (x : User) → In x d.users → x.id ≡ u → x.storage_used ≡ active u d

-- Numbers of users are not repeated.
abbrev pub UniqueUsers : Db → Type 0
UniqueUsers d = (x y : User) → In x d.users → In y d.users → x.id ≡ y.id → x ≡ y

module _ (u : ℕ) (v : Env) (w : World) where
  calibrate_cases :
      (x : User)
      → first (λ x. x.id == u) w.db.users ≡ some x
      → ((calibrate_storage u v w).1.db ≡ w.db)
        ⊎ ((calibrate_storage u v w).1.db
            ≡ update_users u (add_used (pos (active u w.db) -ℤ pos x.storage_used)) w.db)
  unfolding calibrate_storage sum_active_storage user_by_id update_user_storage_used
  calibrate_cases x e = ground arith

  calibrate_absent :
      first (λ x. x.id == u) w.db.users ≡ none → (calibrate_storage u v w).1.db ≡ w.db
  unfolding calibrate_storage sum_active_storage user_by_id
  calibrate_absent e = ground arith

  -- A call of `calibrate_storage` is a sequence of steps.
  pub calibrate_storage-Reach :
      {strict : Bool} → Reach v u strict w.db (calibrate_storage u v w).1.db
  calibrate_storage-Reach = elim (Option-cases (first (λ x. x.id == u) w.db.users)) [
    | inl absent ↦ done (calibrate_absent absent)
    | inr (x, found) ↦ elim (calibrate_cases x found) [
      | inl same ↦ done same
      | inr e ↦ step (charge (pos (active u w.db) -ℤ pos x.storage_used) refl) (done e)
    ]
  ]
