-- ===== src/Files/Place/Copy.antt =====
-- `CopyFile`: the name that it finds is free, and the copy is a step of the specification.
use networkdisk.Prelude.{
  ℕ, zero, suc, ◌+◌, ◌≡◌, refl, Bool, false, ◌⊎◌, inl, inr, Option, none, some, arith, Option-cases,
  first, any,
}
use networkdisk.Prelude.Int.{pos}
use networkdisk.Text.{Text, trim_suffix, ext}
use networkdisk.Model.{File, Db, Env, World}
use networkdisk.Exec.{Error, ok, err, Result-cases, tick}
use networkdisk.Store.Sql.{has_id, has_name, insert_row}
use networkdisk.Store.Users.{update_users, add_used}
use networkdisk.Store.Tx
use networkdisk.Store.Files
use networkdisk.Steps.{MayHold, Reach, create, charge, done, step}
use networkdisk.Files.Guards.{validate_parent_dir, free_name}
use networkdisk.Files.Place.{copy_file, copy_name, copy_of}

module _ (target : Option ℕ) (u : ℕ) (v : Env) where
  free_name-db :
      (base e : Text) (i rounds : ℕ) (w : World)
      → (free_name (Tx.file_name_exists target u) base e i rounds v w).1.db ≡ w.db
  unfolding free_name Tx.file_name_exists
  free_name-db base e i zero w = refl
  free_name-db base e i (suc rounds) w = ground (arith, free_name-db base e (i + 1) rounds (tick w))

  -- A numbered name that the loop gives is free in the directory.
  pub free_name-clear :
      (base e : Text) (i rounds : ℕ) (w : World) (n : Text)
      → (free_name (Tx.file_name_exists target u) base e i rounds v w).0 ≡ ok n
      → any (has_name v target u n) w.db.files ≡ false
  unfolding free_name Tx.file_name_exists
  free_name-clear base e i zero w n h = cc
  free_name-clear base e i (suc rounds) w n h =
      ground (arith, free_name-clear base e (i + 1) rounds (tick w) n)

  copy_name-db : (src : File) (w : World) → (copy_name src target u v w).1.db ≡ w.db
  unfolding copy_name Tx.file_name_exists
  copy_name-db src w =
      ground
        (arith, free_name-db (trim_suffix src.name (ext src.name)) (ext src.name) 1 999 (tick w))

  -- The name that a copy is given is free among the live rows of the user in the target directory.
  pub copy_name-clear :
      (src : File) (w : World) (n : Text)
      → (copy_name src target u v w).0 ≡ ok n
      → any (has_name v target u n) w.db.files ≡ false
  unfolding copy_name Tx.file_name_exists
  copy_name-clear src w n h =
      ground (
        arith,
        free_name-clear (trim_suffix src.name (ext src.name)) (ext src.name) 1 999 (tick w) n,
      )

-- The copy, as far as the transaction gets.
abbrev pub Copied : File → Option ℕ → ℕ → Text → Db → Db → Type 0
Copied src target u n d d' =
    (d' ≡ d)
    ⊎ (d' ≡ update_users u (add_used (pos src.size)) (insert_row (copy_of src target u n) d))

module _ (i u : ℕ) (v : Env) (w : World) where
  -- The world in which the name is looked for: after the row, the parent and BEGIN.
  abbrev at_name : Option ℕ → World
  at_name none = tick (tick w)
  at_name (some p) = tick (tick (tick w))

  copy_failed :
      (src : File) (target : Option ℕ) (e : Error)
      → first (has_id i) w.db.files ≡ some src
      → (copy_name src target u v (at_name target)).0 ≡ err e
      → (copy_file i target u v w).1.db ≡ w.db
  unfolding copy_file validate_parent_dir Files.file_by_id
  copy_failed src none e h k = ground (arith, copy_name-db none u v src (at_name none))
  copy_failed src (some p) e h k = ground (arith, copy_name-db (some p) u v src (at_name (some p)))

  copy_absent :
      (target : Option ℕ)
      → first (has_id i) w.db.files ≡ none
      → (copy_file i target u v w).1.db ≡ w.db
  unfolding copy_file Files.file_by_id
  copy_absent target e = ground arith

  copy_root :
      (src : File) (n : Text)
      → first (has_id i) w.db.files ≡ some src
      → (copy_name src none u v (at_name none)).0 ≡ ok n
      → Copied src none u n w.db (copy_file i none u v w).1.db
  unfolding copy_file validate_parent_dir Files.file_by_id Tx.create_file Tx.file_by_id
      Tx.update_user_storage_used
  copy_root src n h k = ground (arith, copy_name-db none u v src (at_name none))

  copy_in_absent :
      (p : ℕ) → first (has_id p) w.db.files ≡ none → (copy_file i (some p) u v w).1.db ≡ w.db
  unfolding copy_file validate_parent_dir Files.file_by_id
  copy_in_absent p e = ground arith

  copy_in :
      (src g : File) (p : ℕ) (n : Text)
      → first (has_id i) w.db.files ≡ some src
      → first (has_id p) w.db.files ≡ some g
      → (copy_name src (some p) u v (at_name (some p))).0 ≡ ok n
      → ((copy_file i (some p) u v w).1.db ≡ w.db)
        ⊎ ((g.user_id ≡ u) × Copied src (some p) u n w.db (copy_file i (some p) u v w).1.db)
  unfolding copy_file validate_parent_dir Files.file_by_id Tx.create_file Tx.file_by_id
      Tx.update_user_storage_used
  copy_in src g p n h q k = ground (arith, copy_name-db (some p) u v src (at_name (some p)))

  Copied-Reach :
      {strict : Bool} (src : File) (target : Option ℕ) (n : Text)
      → MayHold u target w.db
      → any (has_name v target u n) w.db.files ≡ false
      → {d' : Db} → Copied src target u n w.db d'
      → Reach v u strict w.db d'
  Copied-Reach src target n held clear (inl same) = done same
  Copied-Reach src target n held clear (inr e) =
      step (create (copy_of src target u n) refl held clear refl)
        (step (charge (pos src.size) refl) (done e))

  copy_place :
      {strict : Bool} (target : Option ℕ) (src : File) (n : Text)
      → first (has_id i) w.db.files ≡ some src
      → (copy_name src target u v (at_name target)).0 ≡ ok n
      → Reach v u strict w.db (copy_file i target u v w).1.db
  copy_place none src n found named =
      Copied-Reach src none n tt (copy_name-clear none u v src (at_name none) n named)
        (copy_root src n found named)
  copy_place (some p) src n found named = elim (Option-cases (first (has_id p) w.db.files)) [
    | inl absent ↦ done (copy_in_absent p absent)
    | inr (g, held) ↦ elim (copy_in src g p n found held named) [
      | inl same ↦ done same
      | inr (owner, c) ↦
          Copied-Reach src (some p) n (g, record { found = held; owner = owner })
            (copy_name-clear (some p) u v src (at_name (some p)) n named) c
    ]
  ]

  -- A call of `copy_file` is a sequence of steps.
  pub copy_file-Reach :
      (target : Option ℕ) {strict : Bool} → Reach v u strict w.db (copy_file i target u v w).1.db
  copy_file-Reach target = elim (Option-cases (first (has_id i) w.db.files)) [
    | inl absent ↦ done (copy_absent target absent)
    | inr (src, found) ↦ elim (Result-cases (copy_name src target u v (at_name target)).0) [
      | inr (e, failed) ↦ done (copy_failed src target e found failed)
      | inl (n, named) ↦ copy_place target src n found named
    ]
  ]

  copy_in-Copied :
      (p : ℕ) (src : File) (n : Text)
      → first (has_id i) w.db.files ≡ some src
      → (copy_name src (some p) u v (at_name (some p))).0 ≡ ok n
      → Copied src (some p) u n w.db (copy_file i (some p) u v w).1.db
  copy_in-Copied p src n found named = elim (Option-cases (first (has_id p) w.db.files)) [
    | inl absent ↦ inl (copy_in_absent p absent)
    | inr (g, held) ↦ elim (copy_in src g p n found held named) [
      | inl same ↦ inl same
      | inr (owner, c) ↦ c
    ]
  ]

  -- A call leaves the database or inserts one copy and charges its size.
  pub copy_file-Copied :
      (target : Option ℕ)
      → ((copy_file i target u v w).1.db ≡ w.db)
        ⊎ ((src : File) × (n : Text) × Copied src target u n w.db (copy_file i target u v w).1.db)
  copy_file-Copied target = elim (Option-cases (first (has_id i) w.db.files)) [
    | inl absent ↦ inl (copy_absent target absent)
    | inr (src, found) ↦ elim (Result-cases (copy_name src target u v (at_name target)).0) [
      | inr (e, failed) ↦ inl (copy_failed src target e found failed)
      | inl (n, named) ↦ inr (src, n, copy_to-Copied target src n found named)
    ]
  ]
    where
      copy_to-Copied :
          (target : Option ℕ) (src : File) (n : Text)
          → first (has_id i) w.db.files ≡ some src
          → (copy_name src target u v (at_name target)).0 ≡ ok n
          → Copied src target u n w.db (copy_file i target u v w).1.db
      copy_to-Copied none src n found named = copy_root src n found named
      copy_to-Copied (some p) src n found named = copy_in-Copied p src n found named
