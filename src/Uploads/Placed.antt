-- ===== src/Uploads/Placed.antt =====
-- What the transaction at the end of an upload does to the database.
use networkdisk.Prelude.{
  ℕ, ◌≡◌, refl, ◌⊎◌, inl, inr, true, not, ◌&&◌, Option, none, some, [], ◌∷◌, arith, ltb,
  if◌then◌else◌,
}
use networkdisk.Prelude.Int.{pos, ◌-ℤ◌}
use networkdisk.Text.{Text}
use networkdisk.Model.{File, Db, Env, World}
use networkdisk.Exec.{Result, ok, Result-cases, tick}
use networkdisk.Store.Sql.{in_ids, update_files, insert_row, trashed, parent_exists}
use networkdisk.Store.Users.{update_users, add_used}
use networkdisk.Store.Tx
use networkdisk.Files.Guards.{OverwriteTarget}
use networkdisk.Uploads.{retire, place_duplicate, place_new}

-- The database after the row that is replaced has been retired.
abbrev pub retired : Option OverwriteTarget → ℕ → ℕ → Db → Db
retired none u now d = d
retired (some t) u now d =
    if not t.is_dir && ltb 0 t.size
    then update_users u (add_used (pos 0 -ℤ pos t.size))
        (update_files (in_ids (t.id ∷ [])) (trashed now) d)
    else update_files (in_ids (t.id ∷ [])) (trashed now) d

-- The database after the new row has been inserted and charged for.
abbrev pub placed : Option OverwriteTarget → File → ℕ → Db → Db
placed old f now d =
    update_users f.user_id (add_used (pos f.size)) (insert_row f (retired old f.user_id now d))

retire_ok :
    (old : Option OverwriteTarget) (u : ℕ) (v : Env) (w : World)
    → (retire old u v w).0 ≡ ok tt
    → (retire old u v w).1.db ≡ retired old u w.now w.db
unfolding retire Tx.batch_soft_delete Tx.update_user_storage_used
retire_ok none u v w h = refl
retire_ok (some t) u v w h = ground arith

module _ (old : Option OverwriteTarget) (f : File) (v : Env) (w : World) where
  abbrev retire_result : Result (Unit {0}) × World
  retire_result = retire old f.user_id v (tick w)

  -- A call leaves the database or places the row under a parent that is there.
  abbrev pub Outcome : Db → Type 0
  Outcome d =
      (d ≡ w.db)
      ⊎ ((parent_exists f.parent_id (retired old f.user_id w.now w.db) ≡ true)
          × (d ≡ placed old f w.now w.db))

  pub place_duplicate-Outcome : Outcome (place_duplicate old f v w).1.db
  unfolding place_duplicate Tx.create_file Tx.file_by_id Tx.update_user_storage_used
  place_duplicate-Outcome = elim (Result-cases retire_result.0) [
    | inr (e, h) ↦ inl (ground arith)
    | inl (k, h) ↦ ground (arith, retire_ok old f.user_id v (tick w))
  ]

  pub place_new-Outcome : (key : Text) → Outcome (place_new key old f v w).1.db
  unfolding place_new Tx.create_file Tx.file_by_id Tx.update_user_storage_used
  place_new-Outcome key = elim (Result-cases retire_result.0) [
    | inr (e, h) ↦ inl (ground arith)
    | inl (k, h) ↦ ground (arith, retire_ok old f.user_id v (tick w))
  ]
