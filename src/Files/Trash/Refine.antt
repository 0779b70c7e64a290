-- ===== src/Files/Trash/Refine.antt =====
-- The operations of `Trash` are steps of the specification.
use networkdisk.Prelude.{
  ℕ, ◌≡◌, refl, ◌⊎◌, inl, inr, Bool, true, false, none, some, List, [], ◌∷◌, arith, Option-cases,
  Bool-cases, first,
}
use networkdisk.Prelude.Int.{ℤ, pos, ◌-ℤ◌}
use networkdisk.Model.{File, Db, Env, World}
use networkdisk.Exec.{Error, ok, err, Result-cases, tick, transaction, ◌>>=◌, ◌>>◌}
use networkdisk.Store.Sql.{has_id, in_ids, update_files, trashed}
use networkdisk.Store.Users.{update_users, add_used}
use networkdisk.Store.Files
use networkdisk.Store.Tx
use networkdisk.Store.Tree.{ids_of}
use networkdisk.Steps.{Owns, OwnsAll, Reach, trash, charge, done, step}
use networkdisk.Steps.Sound.{IsSound, OwnsAll-one}
use networkdisk.Files.Trash as T
use networkdisk.Files.Trash.{delete_file, sub_sizes, subtree}
use networkdisk.Files.Trash.Subtree.{subtree-db, subtree-OwnsAll}

-- A database that is the old one, or has the rows in the bin, or has them there and charged.
abbrev pub Binned : List ℕ → ℕ → ℤ → ℕ → Db → Db → Type 0
Binned ids u delta now d d' =
    (d' ≡ d)
    ⊎ (d' ≡ update_files (in_ids ids) (trashed now) d)
    ⊎ (d' ≡ update_users u (add_used delta) (update_files (in_ids ids) (trashed now) d))

pub bin-Binned :
    (i : ℕ) (is : List ℕ) (u : ℕ) (delta : ℤ) (v : Env) (w : World)
    → Binned
        (i ∷ is)
        u
        delta
        w.now
        w.db
        (transaction (Tx.batch_soft_delete (i ∷ is) >> T.charge u delta) v w).1.db
unfolding transaction ◌>>=◌ Tx.batch_soft_delete Tx.update_user_storage_used
bin-Binned i is u delta v w = ground arith

pub Binned-Reach :
    {v : Env} {u : ℕ} {strict : Bool} (ids : List ℕ) (delta : ℤ) (now : ℕ) {d d' : Db}
    → OwnsAll u ids d
    → Binned ids u delta now d d'
    → Reach v u strict d d'
Binned-Reach ids delta now o (inl e) = done e
Binned-Reach ids delta now o (inr (inl e)) = step (trash ids now o refl) (done e)
Binned-Reach ids delta now o (inr (inr e)) =
    step (trash ids now o refl) (step (charge delta refl) (done e))

module _ (i u : ℕ) (v : Env) (w : World) where
  -- Where `delete_file` changes anything, it is by the transaction over the ids that it has collected.
  delete_unfound : first (has_id i) w.db.files ≡ none → (delete_file i u v w).1.db ≡ w.db
  unfolding delete_file Files.file_by_id
  delete_unfound e = ground arith

  module _ (f : File) (found : first (has_id i) w.db.files ≡ some f) where
    delete_one :
        f.is_dir ≡ false
        → ((delete_file i u v w).1.db ≡ w.db)
          ⊎ ((f.user_id ≡ u)
              × Binned (i ∷ []) u (pos 0 -ℤ pos f.size) w.now w.db (delete_file i u v w).1.db)
    unfolding delete_file Files.file_by_id Tx.batch_soft_delete Tx.update_user_storage_used
    delete_one dir = ground arith

    delete_tree :
        (fs : List File)
        → f.is_dir ≡ true
        → (subtree i false v (tick w)).0 ≡ ok fs
        → ((delete_file i u v w).1.db ≡ w.db)
          ⊎ ((f.user_id ≡ u)
              × Binned
                  (i ∷ ids_of fs)
                  u
                  (sub_sizes (pos 0) fs)
                  (subtree i false v (tick w)).1.now
                  w.db
                  (delete_file i u v w).1.db)
    unfolding delete_file Files.file_by_id Tx.batch_soft_delete Tx.update_user_storage_used
    delete_tree fs dir h = ground (arith, subtree-db i false v (tick w))

    delete_tree_failed :
        (e : Error)
        → f.is_dir ≡ true
        → (subtree i false v (tick w)).0 ≡ err e
        → (delete_file i u v w).1.db ≡ w.db
    unfolding delete_file Files.file_by_id
    delete_tree_failed e dir h = ground (arith, subtree-db i false v (tick w))

-- A call of `delete_file` is a sequence of steps.
pub delete_file-Reach :
    (i u : ℕ) (v : Env) (w : World) {strict : Bool}
    → IsSound w.db
    → Reach v u strict w.db (delete_file i u v w).1.db
delete_file-Reach i u v w s = elim (Option-cases (first (has_id i) w.db.files)) [
  | inl absent ↦ done (delete_unfound i u v w absent)
  | inr (f, found) ↦ elim (Bool-cases f.is_dir) [
    | inr file ↦ elim (delete_one i u v w f found file) [
      | inl same ↦ done same
      | inr (owner, b) ↦
          Binned-Reach (i ∷ []) (pos 0 -ℤ pos f.size) w.now
            (subtree_none (record { found = found; owner = owner })) b
    ]
    | inl dir ↦ elim (Result-cases (subtree i false v (tick w)).0) [
      | inr (e, failed) ↦ done (delete_tree_failed i u v w f found e dir failed)
      | inl (fs, got) ↦ elim (delete_tree i u v w f found fs dir got) [
        | inl same ↦ done same
        | inr (owner, b) ↦
            Binned-Reach (i ∷ ids_of fs) (sub_sizes (pos 0) fs) (subtree i false v (tick w)).1.now
              (subtree-OwnsAll i false v (tick w) fs s (record { found = found; owner = owner })
                got)
              b
      ]
    ]
  ]
]
  where
    subtree_none : {f : File} → Owns u i f w.db → OwnsAll u (i ∷ []) w.db
    subtree_none o x m k = OwnsAll-one s o x m (ground arith)
