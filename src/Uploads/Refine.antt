-- ===== src/Uploads/Refine.antt =====
-- A placement of an uploaded row is a sequence of steps of the specification.
use networkdisk.Prelude.{
  ℕ, ◌≡◌, refl, ap, ◌∙◌, inl, inr, Bool, false, not, ◌&&◌, Option, none, some, List, [], ◌∷◌, arith,
  ltb, ◌==◌, Bool-cases, first, update,
}
use networkdisk.Prelude.Int.{pos, ◌-ℤ◌}
use networkdisk.Model.{File, Db, Env}
use networkdisk.Store.Sql.{has_id, in_ids, update_files, insert_row, trashed}
use networkdisk.Store.Users.{update_users, add_used}
use networkdisk.Steps.{MayHold, Change, Reach, add, trash, charge, done, step}
use networkdisk.Files.Guards.{OverwriteTarget}
use networkdisk.Uploads.Placed.{retired}
use networkdisk.Uploads.Effect.{Placement, Replaces}

-- Rows keep their numbers and owners in the recycle bin.
first-trashed :
    (p : ℕ) (q : File → Bool) (now : ℕ) (fs : List File) (g : File)
    → first (has_id p) fs ≡ some g
    → (h : File) × (first (has_id p) (update q (trashed now) fs) ≡ some h) × (h.user_id ≡ g.user_id)
unfolding first update
first-trashed p q now [] g h = cc
first-trashed p q now (x ∷ xs) g h = elim (Bool-cases (x.id == p)) [
  | inl e ↦
      let o : x ≡ g = ground arith in
      elim (Bool-cases (q x)) [
        | inl b ↦ (trashed now x, ground arith, ap (λ (z : File). z.user_id) o)
        | inr b ↦ (x, ground arith, ap (λ (z : File). z.user_id) o)
      ]
  | inr e ↦
      let r = first-trashed p q now xs g (ground arith) in
      elim (Bool-cases (q x)) [
        | inl b ↦ (r.0, ground (arith, r.1), r.2)
        | inr b ↦ (r.0, ground (arith, r.1), r.2)
      ]
]

MayHold-trashed :
    (u : ℕ) (parent : Option ℕ) (q : File → Bool) (now : ℕ) (d : Db)
    → MayHold u parent d
    → MayHold u parent (update_files q (trashed now) d)
MayHold-trashed u none q now d h = tt
MayHold-trashed u (some p) q now d (g, o) =
    let r = first-trashed p q now d.files g o.found in
    (r.0, record { found = r.1; owner = r.2 ∙ o.owner })

MayHold-charged :
    (u : ℕ) (parent : Option ℕ) (d e : Db)
    → e.files ≡ d.files
    → MayHold u parent d
    → MayHold u parent e
MayHold-charged u none d e q h = tt
MayHold-charged u (some p) d e q (g, o) = (g, record { found = rw q o.found; owner = o.owner })

abbrev put_row : ℕ → File → Db → Db
put_row u f d = update_users u (add_used (pos f.size)) (insert_row f d)

module _ {v : Env} (u : ℕ) (f : File) (mine : f.user_id ≡ u) where
  put_row-Reach : (d : Db) → MayHold u f.parent_id d → Reach v u false d (put_row u f d)
  put_row-Reach d h =
      let inserted : Change v u false d (insert_row f d) = add f refl mine h refl in
      let paid : Change v u false (insert_row f d) (put_row u f d) = charge (pos f.size) refl in
      step inserted (step paid (done refl))

  retired-Reach :
      (old : Option OverwriteTarget) (now : ℕ) (d : Db)
      → MayHold u f.parent_id d
      → Replaces old u d
      → Reach v u false d (put_row u f (retired old u now d))
  retired-Reach none now d h r = put_row-Reach d h
  retired-Reach (some t) now d h r =
      let gone : Change v u false d (update_files (in_ids (t.id ∷ [])) (trashed now) d) =
        trash (t.id ∷ []) now r refl in
      let held = MayHold-trashed u f.parent_id (in_ids (t.id ∷ [])) now d h in
      elim (Bool-cases (not t.is_dir && ltb 0 t.size)) [
        | inr q ↦
            rw q
              (step gone (put_row-Reach (update_files (in_ids (t.id ∷ [])) (trashed now) d) held))
        | inl q ↦ rw q (paid_back gone held)
      ]
    where
      paid_back :
          Change v u false d (update_files (in_ids (t.id ∷ [])) (trashed now) d)
          → MayHold u f.parent_id (update_files (in_ids (t.id ∷ [])) (trashed now) d)
          → Reach v u false d (
              put_row u f (
                update_users u
                  (add_used (pos 0 -ℤ pos t.size))
                  (update_files (in_ids (t.id ∷ [])) (trashed now) d)))
      paid_back gone held =
          let back : Change v u false (update_files (in_ids (t.id ∷ [])) (trashed now) d) (
              update_users u (add_used (pos 0 -ℤ pos t.size))
                (update_files (in_ids (t.id ∷ [])) (trashed now) d)) =
            charge (pos 0 -ℤ pos t.size) refl in
          step gone (step back (put_row-Reach _ (MayHold-charged u f.parent_id _ _ refl held)))

-- A placement in a directory of the user is a sequence of steps.
pub Placement-Reach :
    {v : Env} (u : ℕ) (parent : Option ℕ) (d d' : Db)
    → MayHold u parent d
    → Placement u parent d d'
    → Reach v u false d d'
Placement-Reach {v} u parent d d' h m =
    let held : MayHold u m.row.parent_id d = rw m.place h in
    let r = retired-Reach {v = v} u m.row m.user m.old m.now d held m.mine in
    let e : d' ≡ put_row u m.row (retired m.old u m.now d) =
      m.after
      ∙ ap
          (λ k.
            update_users k (add_used (pos m.row.size)) (insert_row m.row (retired m.old k m.now d)))
          m.user in
    rw e r
