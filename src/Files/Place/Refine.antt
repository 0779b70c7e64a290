-- ===== src/Files/Place/Refine.antt =====
-- The operations of `Place` on one row are steps of the specification.
use networkdisk.Prelude.{
  ℕ, ◌≡◌, refl, Bool, true, false, not, ◌⊎◌, inl, inr, Option, none, some, [], arith, Option-cases,
  first, any,
}
use networkdisk.Text.{Text, trim_space}
use networkdisk.Model.{File, Env, World}
use networkdisk.Exec.{tick}
use networkdisk.Store.Sql.{has_id, has_name, update_files, insert_row}
use networkdisk.Store.Tx
use networkdisk.Store.Files
use networkdisk.Store.Tree.{descendants, descendant_ids}
use networkdisk.Steps.{Reach, rename, move, create, star, done, step}
use networkdisk.Files.Guards.{validate_parent_dir, is_descendant_of}
use networkdisk.Files.Place.{create_dir, rename_file, move_file, toggle_star, new_file}

module _ (u i : ℕ) (raw : Text) (v : Env) (w : World) where
  rename_cases :
      (f : File)
      → first (has_id i) w.db.files ≡ some f
      → ((rename_file i raw u v w).1.db ≡ w.db)
        ⊎ ((f.user_id ≡ u)
            × (any (has_name v f.parent_id u (trim_space raw)) w.db.files ≡ false)
            × ((rename_file i raw u v w).1.db
                ≡ update_files (has_id i) (λ f. record f { name = trim_space raw }) w.db))
  unfolding rename_file Tx.file_by_id Tx.file_name_exists Tx.update_file_name Files.file_by_id
  rename_cases f e = ground arith

  rename_absent : first (has_id i) w.db.files ≡ none → (rename_file i raw u v w).1.db ≡ w.db
  unfolding rename_file Tx.file_by_id
  rename_absent e = ground arith

  -- A call of `rename_file` is a sequence of steps.
  pub rename_file-Reach : {strict : Bool} → Reach v u strict w.db (rename_file i raw u v w).1.db
  rename_file-Reach = elim (Option-cases (first (has_id i) w.db.files)) [
    | inl absent ↦ done (rename_absent absent)
    | inr (f, found) ↦ elim (rename_cases f found) [
      | inl same ↦ done same
      | inr (owner, clear, e) ↦
          step (rename i (trim_space raw) f (record { found = found; owner = owner }) clear refl)
            (done e)
    ]
  ]

pub is_descendant_of-db : (a b : ℕ) (v : Env) (w : World) → (is_descendant_of a b v w).1.db ≡ w.db
unfolding is_descendant_of descendant_ids
is_descendant_of-db a b v w = elim (Option-cases (descendants v w.db a)) [
  | inl e ↦ ground arith
  | inr (fs, e) ↦ ground arith
]

-- What a validated parent is.
module _ (u : ℕ) (v : Env) (w : World) where
  abbrev Held : Option ℕ → Type 0
  Held none = Unit
  Held (some p) = (g : File) × (first (has_id p) w.db.files ≡ some g) × (g.user_id ≡ u)

  create_root :
      (raw : Text)
      → ((create_dir raw none u v w).1.db ≡ w.db)
        ⊎ ((any (has_name v none u (trim_space raw)) w.db.files ≡ false)
            × ((create_dir raw none u v w).1.db
                ≡ insert_row (new_file u none (trim_space raw) true 0 [] [] [] []) w.db))
  unfolding create_dir Files.file_name_exists Files.create_file Files.file_by_id
  create_root raw = ground arith

  create_in :
      (raw : Text) (p : ℕ) (g : File)
      → first (has_id p) w.db.files ≡ some g
      → ((create_dir raw (some p) u v w).1.db ≡ w.db)
        ⊎ ((g.user_id ≡ u)
            × (any (has_name v (some p) u (trim_space raw)) w.db.files ≡ false)
            × ((create_dir raw (some p) u v w).1.db
                ≡ insert_row (new_file u (some p) (trim_space raw) true 0 [] [] [] []) w.db))
  unfolding create_dir validate_parent_dir Files.file_name_exists Files.create_file Files.file_by_id
  create_in raw p g e = ground arith

  create_in_absent :
      (raw : Text) (p : ℕ)
      → first (has_id p) w.db.files ≡ none
      → (create_dir raw (some p) u v w).1.db ≡ w.db
  unfolding create_dir validate_parent_dir Files.file_by_id
  create_in_absent raw p e = ground arith

  -- A call of `create_dir` is a sequence of steps.
  pub create_dir-Reach :
      (raw : Text) (parent : Option ℕ) {strict : Bool}
      → Reach v u strict w.db (create_dir raw parent u v w).1.db
  create_dir-Reach raw none = elim (create_root raw) [
    | inl same ↦ done same
    | inr (clear, e) ↦
        step (create (new_file u none (trim_space raw) true 0 [] [] [] []) refl tt clear refl)
          (done e)
  ]
  create_dir-Reach raw (some p) = elim (Option-cases (first (has_id p) w.db.files)) [
    | inl absent ↦ done (create_in_absent raw p absent)
    | inr (g, found) ↦ elim (create_in raw p g found) [
      | inl same ↦ done same
      | inr (owner, clear, e) ↦
          step
            (create (new_file u (some p) (trim_space raw) true 0 [] [] [] []) refl
              (g, record { found = found; owner = owner }) clear refl)
            (done e)
    ]
  ]

  star_cases :
      (i : ℕ) (f : File)
      → first (has_id i) w.db.files ≡ some f
      → ((toggle_star i u v w).1.db ≡ w.db)
        ⊎ ((f.user_id ≡ u)
            × ((toggle_star i u v w).1.db
                ≡ update_files (has_id i) (λ f. record f { is_starred = not f.is_starred }) w.db))
  unfolding toggle_star Files.toggle_star Files.file_by_id
  star_cases i f e = ground arith

  star_absent : (i : ℕ) → first (has_id i) w.db.files ≡ none → (toggle_star i u v w).1.db ≡ w.db
  unfolding toggle_star Files.file_by_id
  star_absent i e = ground arith

  -- A call of `toggle_star` is a sequence of steps.
  pub toggle_star-Reach : (i : ℕ) {strict : Bool} → Reach v u strict w.db (toggle_star i u v w).1.db
  toggle_star-Reach i = elim (Option-cases (first (has_id i) w.db.files)) [
    | inl absent ↦ done (star_absent i absent)
    | inr (f, found) ↦ elim (star_cases i f found) [
      | inl same ↦ done same
      | inr (owner, e) ↦ step (star i f (record { found = found; owner = owner }) refl) (done e)
    ]
  ]

  move_root :
      (i : ℕ) (f : File)
      → first (has_id i) w.db.files ≡ some f
      → ((move_file i none u v w).1.db ≡ w.db)
        ⊎ ((f.user_id ≡ u)
            × (any (has_name v none u f.name) w.db.files ≡ false)
            × ((move_file i none u v w).1.db
                ≡ update_files (has_id i) (λ f. record f { parent_id = none }) w.db))
  unfolding move_file Files.file_by_id Tx.file_by_id Tx.file_name_exists Tx.update_file_parent_id
  move_root i f e = ground arith

  move_absent : (i : ℕ) → first (has_id i) w.db.files ≡ none → (move_file i none u v w).1.db ≡ w.db
  unfolding move_file Files.file_by_id
  move_absent i e = ground arith

  move_in :
      (i p : ℕ) (f g : File)
      → first (has_id i) w.db.files ≡ some f
      → first (has_id p) w.db.files ≡ some g
      → ((move_file i (some p) u v w).1.db ≡ w.db)
        ⊎ ((f.user_id ≡ u)
            × (g.user_id ≡ u)
            × (any (has_name v (some p) u f.name) w.db.files ≡ false)
            × ((move_file i (some p) u v w).1.db
                ≡ update_files (has_id i) (λ f. record f { parent_id = some p }) w.db))
  unfolding move_file validate_parent_dir Files.file_by_id Tx.file_by_id Tx.file_name_exists
      Tx.update_file_parent_id
  move_in i p f g e k = ground (arith, is_descendant_of-db p i v (tick (tick w)))

  move_in_absent :
      (i p : ℕ)
      → (first (has_id i) w.db.files ≡ none) ⊎ (first (has_id p) w.db.files ≡ none)
      → (move_file i (some p) u v w).1.db ≡ w.db
  unfolding move_file validate_parent_dir Files.file_by_id
  move_in_absent i p e = ground arith

  -- A call of `move_file` is a sequence of steps.
  pub move_file-Reach :
      (i : ℕ) (target : Option ℕ) {strict : Bool}
      → Reach v u strict w.db (move_file i target u v w).1.db
  move_file-Reach i none = elim (Option-cases (first (has_id i) w.db.files)) [
    | inl absent ↦ done (move_absent i absent)
    | inr (f, found) ↦ elim (move_root i f found) [
      | inl same ↦ done same
      | inr (owner, clear, e) ↦
          step (move i none f (record { found = found; owner = owner }) tt clear refl) (done e)
    ]
  ]
  move_file-Reach i (some p) = elim (Option-cases (first (has_id i) w.db.files)) [
    | inl absent ↦ done (move_in_absent i p (inl absent))
    | inr (f, found) ↦ elim (Option-cases (first (has_id p) w.db.files)) [
      | inl absent ↦ done (move_in_absent i p (inr absent))
      | inr (g, there_is) ↦ elim (move_in i p f g found there_is) [
        | inl same ↦ done same
        | inr (owner, holder, clear, e) ↦
            step
              (move i (some p) f (record { found = found; owner = owner })
                (g, record { found = there_is; owner = holder }) clear refl)
              (done e)
      ]
    ]
  ]
