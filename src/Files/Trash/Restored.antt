-- ===== src/Files/Trash/Restored.antt =====
-- `RestoreFile` is a sequence of steps.
use networkdisk.Prelude.{
  ℕ, ◌≡◌, refl, ◌∙◌, ap, ◌⊎◌, inl, inr, true, false, ◌&&◌, Option, none, some, List, [], ◌∷◌, arith,
  if◌then◌else◌, Option-cases, Bool-cases, In, first, In-update,
}
use mathlib.Core.Path.{fun_ext, subst}
use networkdisk.Prelude.Int.{ℤ, pos}
use networkdisk.Model.{File, Db, Env, World}
use networkdisk.Exec.{Error, ok, err, Result-cases, tick}
use networkdisk.Store.Sql.{has_id, in_ids, update_files, untrashed, in_trash}
use networkdisk.Store.Users.{update_users, add_used}
use networkdisk.Store.Files
use networkdisk.Store.Tx
use networkdisk.Store.Tree.{ids_of}
use networkdisk.Steps.{Owns, OwnsAll, Reach, restore, reparent, charge, done, step}
use networkdisk.Steps.Sound.{IsSound, OwnsAll-one}
use networkdisk.Files.Trash.{restore_file, add_sizes, subtree, lost_parent}
use networkdisk.Files.Trash.Subtree.{subtree-db, subtree-OwnsAll}

abbrev restored : List ℕ → Db → Db
restored ids d = update_files (λ f. in_ids ids f && in_trash f) untrashed d

abbrev at_root : ℕ → Db → Db
at_root i d = update_files (has_id i) (λ f. record f { parent_id = none }) d

-- The statements of the transaction, as far as they are made.
abbrev Restored : ℕ → List ℕ → ℕ → ℤ → Db → Db → Type 0
Restored i ids u delta d d' =
    (d' ≡ d)
    ⊎ (d' ≡ restored ids d)
    ⊎ (d' ≡ at_root i (restored ids d))
    ⊎ (d' ≡ update_users u (add_used delta) (restored ids d))
    ⊎ (d' ≡ update_users u (add_used delta) (at_root i (restored ids d)))

lost_parent-db : (p : Option ℕ) (u : ℕ) (v : Env) (w : World) → (lost_parent p u v w).1.db ≡ w.db
unfolding lost_parent Files.file_by_id
lost_parent-db p u v w = ground arith

module _ (i u : ℕ) (v : Env) (w : World) where
  abbrev at_subtree : File → World
  at_subtree f = (lost_parent f.parent_id u v (tick w)).1

  restore_unfound : first (has_id i) w.db.files ≡ none → (restore_file i u v w).1.db ≡ w.db
  unfolding restore_file Files.file_by_id
  restore_unfound e = ground arith

  module _ (f : File) (found : first (has_id i) w.db.files ≡ some f) where
    restore_one :
        f.is_dir ≡ false
        → ((restore_file i u v w).1.db ≡ w.db)
          ⊎ ((f.user_id ≡ u) × Restored i (i ∷ []) u (pos f.size) w.db (restore_file i u v w).1.db)
    unfolding restore_file Files.file_by_id Tx.restore_files Tx.update_file_parent_id
        Tx.update_user_storage_used
    restore_one dir = ground (arith, lost_parent-db f.parent_id u v (tick w))

    restore_tree :
        (fs : List File)
        → f.is_dir ≡ true
        → (subtree i true v (at_subtree f)).0 ≡ ok fs
        → ((restore_file i u v w).1.db ≡ w.db)
          ⊎ ((f.user_id ≡ u)
              × Restored i
                  (i ∷ ids_of fs)
                  u
                  (add_sizes (pos 0) fs)
                  w.db
                  (restore_file i u v w).1.db)
    unfolding restore_file Files.file_by_id Tx.restore_files Tx.update_file_parent_id
        Tx.update_user_storage_used
    restore_tree fs dir h =
        ground (arith, lost_parent-db f.parent_id u v (tick w), subtree-db i true v (at_subtree f))

    restore_tree_failed :
        (e : Error)
        → f.is_dir ≡ true
        → (subtree i true v (at_subtree f)).0 ≡ err e
        → (restore_file i u v w).1.db ≡ w.db
    unfolding restore_file Files.file_by_id
    restore_tree_failed e dir h =
        ground (arith, lost_parent-db f.parent_id u v (tick w), subtree-db i true v (at_subtree f))

-- The rows keep their numbers and owners when they are restored.
OwnsAll-restored :
    {u : ℕ} (d : Db) (ids : List ℕ) (i : ℕ)
    → ((g : File) → In g d.files → has_id i g ≡ true → g.user_id ≡ u)
    → OwnsAll u (i ∷ []) (restored ids d)
OwnsAll-restored {u} d ids i o x m h =
    let a = In-update (λ f. in_ids ids f && in_trash f) untrashed d.files x m in
    let p = λ (f : File). in_ids ids f && in_trash f in
    let same_id : (if p a.0 then untrashed a.0 else a.0).id ≡ a.0.id = elim (Bool-cases (p a.0)) [
      | inl e ↦ rw e
      | inr e ↦ rw e
    ] in
    let same_user : (if p a.0 then untrashed a.0 else a.0).user_id ≡ a.0.user_id =
      elim (Bool-cases (p a.0)) [ inl e ↦ rw e | inr e ↦ rw e ] in
    let id_of : x.id ≡ a.0.id = ap (λ (z : File). z.id) a.2 ∙ same_id in
    ap (λ (z : File). z.user_id) a.2 ∙ same_user ∙ o a.0 a.1 (ground arith)

at_root-eq :
    (i : ℕ) (d : Db)
    → at_root i d ≡ update_files (in_ids (i ∷ [])) (λ f. record f { parent_id = none }) d
at_root-eq i d =
    ap (λ p. update_files p (λ f. record f { parent_id = none }) d) (fun_ext (λ f. ground arith))

Restored-Reach :
    {v : Env} {u : ℕ} (i : ℕ) (ids : List ℕ) (delta : ℤ) {d d' : Db}
    → ((g : File) → In g d.files → has_id i g ≡ true → g.user_id ≡ u)
    → OwnsAll u ids d
    → Restored i ids u delta d d'
    → Reach v u false d d'
Restored-Reach i ids delta one o (inl e) = done e
Restored-Reach i ids delta one o (inr (inl e)) = step (restore ids refl o refl) (done e)
Restored-Reach i ids delta {d = d} one o (inr (inr (inl e))) = step (restore ids refl o refl) (
    step (reparent (i ∷ []) none refl (OwnsAll-restored d ids i one) tt refl)
      (done (e ∙ at_root-eq i (restored ids d))))
Restored-Reach i ids delta one o (inr (inr (inr (inl e)))) =
    step (restore ids refl o refl) (step (charge delta refl) (done e))
Restored-Reach {u = u} i ids delta {d = d} one o (inr (inr (inr (inr e)))) =
    step (restore ids refl o refl) (
      step (reparent (i ∷ []) none refl (OwnsAll-restored d ids i one) tt refl) (
        step (charge delta refl)
          (done (e ∙ ap (update_users u (add_used delta)) (at_root-eq i (restored ids d))))))

-- A call of `restore_file` is a sequence of steps.
pub restore_file-Reach :
    (i u : ℕ) (v : Env) (w : World)
    → IsSound w.db
    → Reach v u false w.db (restore_file i u v w).1.db
restore_file-Reach i u v w s = elim (Option-cases (first (has_id i) w.db.files)) [
  | inl absent ↦ done (restore_unfound i u v w absent)
  | inr (f, found) ↦ elim (Bool-cases f.is_dir) [
    | inr file ↦ elim (restore_one i u v w f found file) [
      | inl same ↦ done same
      | inr (owner, b) ↦
          let o : Owns u i f w.db = record { found = found; owner = owner } in
          Restored-Reach i (i ∷ []) (pos f.size) (OwnsAll-one s o)
            (λ x m k. OwnsAll-one s o x m (ground arith)) b
    ]
    | inl dir ↦ elim (Result-cases (subtree i true v (at_subtree i u v w f)).0) [
      | inr (e, failed) ↦ done (restore_tree_failed i u v w f found e dir failed)
      | inl (fs, got) ↦ elim (restore_tree i u v w f found fs dir got) [
        | inl same ↦ done same
        | inr (owner, b) ↦
            let o : Owns u i f w.db = record { found = found; owner = owner } in
            Restored-Reach i (i ∷ ids_of fs) (add_sizes (pos 0) fs) (OwnsAll-one s o)
              (owns_tree f fs o got) b
      ]
    ]
  ]
]
  where
    owns_tree :
        (f : File) (fs : List File)
        → Owns u i f w.db
        → (subtree i true v (at_subtree i u v w f)).0 ≡ ok fs
        → OwnsAll u (i ∷ ids_of fs) w.db
    owns_tree f fs o got =
        let e = lost_parent-db f.parent_id u v (tick w) in
        subst (OwnsAll u (i ∷ ids_of fs)) e (
          subtree-OwnsAll i true v (at_subtree i u v w f) {g = f} fs (rw e s)
            (record { found = rw e o.found; owner = o.owner }) got)
