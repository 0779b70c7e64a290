-- ===== src/Files/Trash/Batch.antt =====
-- `BatchDelete` is a sequence of steps.
use networkdisk.Prelude.{
  ℕ, ◌≡◌, refl, ◌∙◌, inl, inr, Bool, false, ◌||◌, List, [], ◌∷◌, ◌++◌, arith, ◌==◌, Option-cases,
  Bool-cases, first, contains,
}
use mathlib.Core.Path.{subst}
use networkdisk.Prelude.Int.{ℤ, pos, ◌-ℤ◌}
use networkdisk.Model.{Db, Env, World}
use networkdisk.Exec.{Error, Result, ok, err, Result-cases, tick}
use networkdisk.Store.Sql.{has_id}
use networkdisk.Store.Files
use networkdisk.Store.Tx
use networkdisk.Store.Tree.{ids_of}
use networkdisk.Steps.{Owns, OwnsAll, Reach, done}
use networkdisk.Steps.Sound.{IsSound, OwnsAll-one}
use networkdisk.Files.Trash.{batch_delete, collect_deletions, sub_sizes, subtree}
use networkdisk.Files.Trash.Subtree.{subtree-db, subtree-OwnsAll}
use networkdisk.Files.Trash.Refine.{Binned, Binned-Reach}

contains-append :
    (a : ℕ) (xs ys : List ℕ) → contains a (xs ++ ys) ≡ (contains a xs || contains a ys)
contains-append a [] ys = refl
contains-append a (x ∷ xs) ys = ground (arith, contains-append a xs ys)

OwnsAll-append :
    {u : ℕ} (d : Db) (xs ys : List ℕ) → OwnsAll u xs d → OwnsAll u ys d → OwnsAll u (xs ++ ys) d
OwnsAll-append d xs ys a b f m h = elim (Bool-cases (contains f.id xs)) [
  | inl e ↦ a f m e
  | inr e ↦ b f m (ground (arith, contains-append f.id xs ys))
]

-- The world in which the loop goes on after it has looked at a directory.
abbrev after_tree : ℕ → Env → World → World
after_tree i v w = (subtree i false v (tick w)).1

module _ (u : ℕ) (v : Env) where
  pub collect-db :
      (is : List ℕ) (all : List ℕ) (delta : ℤ) (w : World)
      → (collect_deletions is u all delta v w).1.db ≡ w.db
  unfolding collect_deletions Files.file_by_id
  collect-db [] all delta w = refl
  collect-db (i ∷ is) all delta w = elim (Option-cases (first (has_id i) w.db.files)) [
    | inl absent ↦ ground arith
    | inr (f, found) ↦ elim (Bool-cases f.is_dir) [
      | inr file ↦ ground (arith, collect-db is (all ++ (i ∷ [])) (delta -ℤ pos f.size) (tick w))
      | inl dir ↦ elim (Result-cases (subtree i false v (tick w)).0) [
        | inr (e, failed) ↦ ground (arith, subtree-db i false v (tick w))
        | inl (fs, got) ↦ ground (
          arith,
          subtree-db i false v (tick w),
          collect-db is (all ++ (i ∷ ids_of fs)) (sub_sizes delta fs) (after_tree i v w),
        )
      ]
    ]
  ]

  -- The ids that the loop has collected are all `u`'s.
  pub collect-OwnsAll :
      (is : List ℕ) (all : List ℕ) (delta : ℤ) (w : World) (d : Db) (r : List ℕ × ℤ)
      → w.db ≡ d
      → IsSound d
      → OwnsAll u all d
      → (collect_deletions is u all delta v w).0 ≡ ok r
      → OwnsAll u r.0 d
  unfolding collect_deletions Files.file_by_id
  collect-OwnsAll [] all delta w d r same s o h =
      let q : all ≡ r.0 = ground arith in subst (λ ids. OwnsAll u ids d) q o
  collect-OwnsAll (i ∷ is) all delta w d r same s o h =
      elim (Option-cases (first (has_id i) w.db.files)) [
        | inl absent ↦ ground arith
        | inr (f, found) ↦ elim (Bool-cases (f.user_id == u)) [
          | inr other ↦ ground arith
          | inl owner ↦
              let mine : Owns u i f w.db = record { found = found; owner = ground arith } in
              elim (Bool-cases f.is_dir) [
                | inr file ↦
                    collect-OwnsAll is (all ++ (i ∷ [])) (delta -ℤ pos f.size) (tick w) d r same s
                      (OwnsAll-append d all (i ∷ []) o (
                        subst (OwnsAll u (i ∷ [])) same
                          (λ x m k. OwnsAll-one (rw same s) mine x m (ground arith))))
                      (ground arith)
                | inl dir ↦ elim (Result-cases (subtree i false v (tick w)).0) [
                  | inr (e, failed) ↦ ground (arith, subtree-db i false v (tick w))
                  | inl (fs, got) ↦
                      collect-OwnsAll is (all ++ (i ∷ ids_of fs)) (sub_sizes delta fs)
                        (after_tree i v w) d r (subtree-db i false v (tick w) ∙ same) s
                        (OwnsAll-append d all (i ∷ ids_of fs) o (
                          subst (OwnsAll u (i ∷ ids_of fs)) same
                            (subtree-OwnsAll i false v (tick w) {g = f} fs (rw same s) mine got)))
                        (ground arith)
                ]
              ]
        ]
      ]

-- A call of `batch_delete` is a sequence of steps.
module _ (i : ℕ) (is : List ℕ) (u : ℕ) (v : Env) (w : World) where
  abbrev collected : Result (List ℕ × ℤ) × World
  collected = collect_deletions (i ∷ is) u [] (pos 0) v w

  batch_failed : (e : Error) → collected.0 ≡ err e → (batch_delete (i ∷ is) u v w).1.db ≡ w.db
  unfolding batch_delete
  batch_failed e h = ground (arith, collect-db u v (i ∷ is) [] (pos 0) w)

  batch_empty :
      (delta : ℤ) → collected.0 ≡ ok ([], delta) → (batch_delete (i ∷ is) u v w).1.db ≡ w.db
  unfolding batch_delete Tx.batch_soft_delete
  batch_empty delta h = ground (arith, collect-db u v (i ∷ is) [] (pos 0) w)

  batch_some :
      (j : ℕ) (js : List ℕ) (delta : ℤ)
      → collected.0 ≡ ok (j ∷ js, delta)
      → Binned (j ∷ js) u delta collected.1.now w.db (batch_delete (i ∷ is) u v w).1.db
  unfolding batch_delete Tx.batch_soft_delete Tx.update_user_storage_used
  batch_some j js delta h = ground (arith, collect-db u v (i ∷ is) [] (pos 0) w)

  batch_of :
      {strict : Bool} (r : List ℕ × ℤ)
      → collected.0 ≡ ok r
      → OwnsAll u r.0 w.db
      → Reach v u strict w.db (batch_delete (i ∷ is) u v w).1.db
  batch_of ([], delta) h o = done (batch_empty delta h)
  batch_of (j ∷ js, delta) h o =
      Binned-Reach (j ∷ js) delta collected.1.now o (batch_some j js delta h)

pub batch_delete-Reach :
    (ids : List ℕ) (u : ℕ) (v : Env) (w : World) {strict : Bool}
    → IsSound w.db
    → Reach v u strict w.db (batch_delete ids u v w).1.db
unfolding batch_delete
batch_delete-Reach [] u v w s = done refl
batch_delete-Reach (i ∷ is) u v w s = elim (Result-cases (collected i is u v w).0) [
  | inl (r, h) ↦
      batch_of i is u v w r h
        (collect-OwnsAll u v (i ∷ is) [] (pos 0) w w.db r refl s (λ x m k. cc) h)
  | inr (e, h) ↦ done (batch_failed i is u v w e h)
]
