-- ===== src/Files/Purge/Refine.antt =====
-- `PermanentDeleteFile` is a sequence of steps.
use networkdisk.Prelude.{
  ℕ, ◌≡◌, refl, sym, ◌⊎◌, inl, inr, Bool, true, false, none, some, List, [], ◌∷◌, arith,
  if◌then◌else◌, Option-cases, Bool-cases, first, select,
}
use mathlib.Core.Path.{subst}
use networkdisk.Prelude.Int.{ℤ, pos, is_zero, ◌-ℤ◌}
use networkdisk.Text.{Text}
use networkdisk.Model.{File, Db, Env, World}
use networkdisk.Exec.{
  Error, Result, ok, err, Result-cases, tick, remove_from_disk, without_key, pure, ◌>>=◌, ◌>>◌,
}
use networkdisk.Store.Sql.{has_id, in_ids}
use networkdisk.Store.Users.{update_users, add_used, update_user_storage_used}
use networkdisk.Store.Files
use networkdisk.Store.Tx
use networkdisk.Store.Tx.{delete_rows}
use networkdisk.Store.Tree.{ids_of}
use networkdisk.Steps.{Owns, OwnsAll, Reach, purge, charge, done, step}
use networkdisk.Steps.Sound.{IsSound, OwnsAll-one}
use networkdisk.Files.Trash.{subtree, sub_sizes}
use networkdisk.Files.Trash.Subtree.{subtree-db, subtree-OwnsAll}
use networkdisk.Files.Purge.{
  Keys, no_keys, check_storage, check_thumbnail, check_keys, remove_all, purge_rows,
  permanent_delete_file,
}

abbrev without : Text → World → World
without k w = record w { disk = without_key k w.disk }

module _ (v : Env) where
  check_storage-db : (f : File) (k : Keys) (w : World) → (check_storage f k v w).1.db ≡ w.db
  unfolding check_storage Tx.count_by_storage_key
  check_storage-db f k w = ground arith

  check_thumbnail-db : (f : File) (k : Keys) (w : World) → (check_thumbnail f k v w).1.db ≡ w.db
  unfolding check_thumbnail Tx.count_by_thumbnail_key
  check_thumbnail-db f k w = ground arith

  storage_never_fails :
      (f : File) (k : Keys) (w : World) (e : Error) → (check_storage f k v w).0 ≡ err e → ⊥
  unfolding check_storage Tx.count_by_storage_key
  storage_never_fails f k w e h = ground arith

  thumbnail_never_fails :
      (f : File) (k : Keys) (w : World) (e : Error) → (check_thumbnail f k v w).0 ≡ err e → ⊥
  unfolding check_thumbnail Tx.count_by_thumbnail_key
  thumbnail_never_fails f k w e h = ground arith

  pub check_keys-db : (fs : List File) (k : Keys) (w : World) → (check_keys fs k v w).1.db ≡ w.db
  unfolding check_keys
  check_keys-db [] k w = refl
  check_keys-db (f ∷ fs) k w = elim (Result-cases (check_storage f k v w).0) [
    | inr (e, h) ↦ absurd (storage_never_fails f k w e h)
    | inl (k', h) ↦ elim (Result-cases (check_thumbnail f k' v (check_storage f k v w).1).0) [
      | inr (e, h') ↦ absurd (thumbnail_never_fails f k' (check_storage f k v w).1 e h')
      | inl (k'', h') ↦ ground (
        arith,
        check_storage-db f k w,
        check_thumbnail-db f k' (check_storage f k v w).1,
        check_keys-db fs k'' (check_thumbnail f k' v (check_storage f k v w).1).1,
      )
    ]
  ]

  -- The errors of the counts are dropped, so the loop does not fail.
  pub keys_never_fail :
      (fs : List File) (k : Keys) (w : World) (e : Error) → (check_keys fs k v w).0 ≡ err e → ⊥
  unfolding check_keys
  keys_never_fail [] k w e q = cc
  keys_never_fail (f ∷ fs) k w e q = elim (Result-cases (check_storage f k v w).0) [
    | inr (e', h) ↦ storage_never_fails f k w e' h
    | inl (k', h) ↦ elim (Result-cases (check_thumbnail f k' v (check_storage f k v w).1).0) [
      | inr (e', h') ↦ thumbnail_never_fails f k' (check_storage f k v w).1 e' h'
      | inl (k'', h') ↦
          keys_never_fail fs k'' (check_thumbnail f k' v (check_storage f k v w).1).1 e
            (ground arith)
    ]
  ]

  pub remove_all-db : (ks : List Text) (w : World) → (remove_all ks v w).1.db ≡ w.db
  unfolding remove_all remove_from_disk ◌>>=◌
  remove_all-db [] w = refl
  remove_all-db (k ∷ ks) w = ground (arith, remove_all-db ks (without k w))

  pub remove_all-ok : (ks : List Text) (w : World) → (remove_all ks v w).0 ≡ ok tt
  unfolding remove_all remove_from_disk ◌>>=◌
  remove_all-ok [] w = refl
  remove_all-ok (k ∷ ks) w = ground (arith, remove_all-ok ks (without k w))

abbrev Purged : List ℕ → ℕ → ℤ → Db → Db → Type 0
Purged ids u delta d d' =
    (d' ≡ d) ⊎ (d' ≡ delete_rows ids d) ⊎ (d' ≡ update_users u (add_used delta) (delete_rows ids d))

module _ (i : ℕ) (is : List ℕ) (v : Env) (w : World) where
  -- The rows that the transaction reads, and what the loop finds out about their keys.
  abbrev rows : List File
  rows = select (in_ids (i ∷ is)) w.db.files

  abbrev keys_found : Result Keys × World
  keys_found = check_keys rows no_keys v (tick (tick w))

  pub purge_rows-err :
      (e : Error) → (purge_rows (i ∷ is) v w).0 ≡ err e → (purge_rows (i ∷ is) v w).1.db ≡ w.db
  unfolding purge_rows Tx.files_by_ids Tx.hard_delete_files
  purge_rows-err e h = elim (Result-cases keys_found.0) [
    | inr (e', q) ↦ absurd (keys_never_fail v rows no_keys (tick (tick w)) e' q)
    | inl (k, q) ↦ ground (arith, check_keys-db v rows no_keys (tick (tick w)))
  ]

  -- A purge that succeeds has deleted exactly the rows with the numbers.
  -- A transaction that succeeds has deleted exactly the rows with the numbers, and returns the keys
  -- found before the rows were deleted.
  pub purge_rows-ok :
      (k : Keys)
      → (purge_rows (i ∷ is) v w).0 ≡ ok k
      → ((purge_rows (i ∷ is) v w).1.db ≡ delete_rows (i ∷ is) w.db) × (keys_found.0 ≡ ok k)
  unfolding purge_rows Tx.files_by_ids Tx.hard_delete_files
  purge_rows-ok k h = elim (Result-cases keys_found.0) [
    | inr (e', q) ↦ absurd (keys_never_fail v rows no_keys (tick (tick w)) e' q)
    | inl (k', q) ↦ (
      ground (arith, check_keys-db v rows no_keys (tick (tick w))),
      ground (arith, check_keys-db v rows no_keys (tick (tick w))),
    )
  ]

-- What comes after the rows have been collected.
module _ (i : ℕ) (is : List ℕ) (u : ℕ) (delta : ℤ) (v : Env) (w : World) where
  abbrev rest_of_purge : Result (Unit {0}) × World
  rest_of_purge =
      (do
        keys ← purge_rows (i ∷ is)
        remove_all keys.storages
        remove_all keys.thumbnails
        (if is_zero delta then pure tt else update_user_storage_used u delta))
        v w

  rest-Purged : Purged (i ∷ is) u delta w.db rest_of_purge.1.db
  unfolding ◌>>=◌ update_user_storage_used
  rest-Purged = elim (Result-cases (purge_rows (i ∷ is) v w).0) [
    | inr (e, h) ↦ inl (ground (arith, purge_rows-err i is v w e h))
    | inl (k, h) ↦
        let w1 = (purge_rows (i ∷ is) v w).1 in
        let w2 = (remove_all k.storages v w1).1 in
        ground (
          arith,
          (purge_rows-ok i is v w k h).0,
          remove_all-ok v k.storages w1,
          remove_all-db v k.storages w1,
          remove_all-ok v k.thumbnails w2,
          remove_all-db v k.thumbnails w2,
        )
  ]

Purged-Reach :
    {v : Env} {u : ℕ} {strict : Bool} (ids : List ℕ) (delta : ℤ) {d d' : Db}
    → OwnsAll u ids d
    → Purged ids u delta d d'
    → Reach v u strict d d'
Purged-Reach ids delta o (inl e) = done e
Purged-Reach ids delta o (inr (inl e)) = step (purge ids o refl) (done e)
Purged-Reach ids delta o (inr (inr e)) = step (purge ids o refl) (step (charge delta refl) (done e))

module _ (i u : ℕ) (v : Env) (w : World) where
  purge_unfound : first (has_id i) w.db.files ≡ none → (permanent_delete_file i u v w).1.db ≡ w.db
  unfolding permanent_delete_file Files.file_by_id
  purge_unfound e = ground arith

  module _ (f : File) (found : first (has_id i) w.db.files ≡ some f) where
    purge_one :
        f.is_dir ≡ false
        → ((permanent_delete_file i u v w).1.db ≡ w.db)
          ⊎ ((f.user_id ≡ u)
              × ((permanent_delete_file i u v w).1
                  ≡ (rest_of_purge i [] u (pos 0 -ℤ pos f.size) v (tick w)).1))
    unfolding permanent_delete_file Files.file_by_id ◌>>=◌
    purge_one dir = ground arith

    purge_tree :
        (fs : List File)
        → f.is_dir ≡ true
        → (subtree i true v (tick w)).0 ≡ ok fs
        → ((permanent_delete_file i u v w).1.db ≡ w.db)
          ⊎ ((f.user_id ≡ u)
              × ((permanent_delete_file i u v w).1
                  ≡ (rest_of_purge i
                      (ids_of fs)
                      u
                      (sub_sizes (pos 0) fs)
                      v
                      (subtree i true v (tick w)).1).1))
    unfolding permanent_delete_file Files.file_by_id ◌>>=◌
    purge_tree fs dir h = ground (arith, subtree-db i true v (tick w))

    purge_tree_failed :
        (e : Error)
        → f.is_dir ≡ true
        → (subtree i true v (tick w)).0 ≡ err e
        → (permanent_delete_file i u v w).1.db ≡ w.db
    unfolding permanent_delete_file Files.file_by_id
    purge_tree_failed e dir h = ground (arith, subtree-db i true v (tick w))

-- A call of `permanent_delete_file` is a sequence of steps.
pub permanent_delete_file-Reach :
    (i u : ℕ) (v : Env) (w : World) {strict : Bool}
    → IsSound w.db
    → Reach v u strict w.db (permanent_delete_file i u v w).1.db
permanent_delete_file-Reach i u v w {strict} s = elim (Option-cases (first (has_id i) w.db.files)) [
  | inl absent ↦ done (purge_unfound i u v w absent)
  | inr (f, found) ↦ elim (Bool-cases f.is_dir) [
    | inr file ↦ elim (purge_one i u v w f found file) [
      | inl same ↦ done same
      | inr (owner, e) ↦
          let o : Owns u i f w.db = record { found = found; owner = owner } in
          subst (λ (x : World). Reach v u strict w.db x.db) (sym e)
            (Purged-Reach (i ∷ []) (pos 0 -ℤ pos f.size)
              (λ x m k. OwnsAll-one s o x m (ground arith))
              (rest-Purged i [] u (pos 0 -ℤ pos f.size) v (tick w)))
    ]
    | inl dir ↦ elim (Result-cases (subtree i true v (tick w)).0) [
      | inr (e, failed) ↦ done (purge_tree_failed i u v w f found e dir failed)
      | inl (fs, got) ↦ elim (purge_tree i u v w f found fs dir got) [
        | inl same ↦ done same
        | inr (owner, e) ↦
            let o : Owns u i f w.db = record { found = found; owner = owner } in
            let w' = (subtree i true v (tick w)).1 in
            subst (λ (x : World). Reach v u strict w.db x.db) (sym e)
              (subst
                (λ (d : Db).
                  Reach v u strict d
                    (rest_of_purge i (ids_of fs) u (sub_sizes (pos 0) fs) v w').1.db)
                (subtree-db i true v (tick w))
                (Purged-Reach (i ∷ ids_of fs) (sub_sizes (pos 0) fs)
                  (subst (OwnsAll u (i ∷ ids_of fs)) (sym (subtree-db i true v (tick w)))
                    (subtree-OwnsAll i true v (tick w) {g = f} fs s o got))
                  (rest-Purged i (ids_of fs) u (sub_sizes (pos 0) fs) v w')))
      ]
    ]
  ]
]
