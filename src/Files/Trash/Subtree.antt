-- ===== src/Files/Trash/Subtree.antt =====
-- What `DescendantIDs` followed by `FilesByIDs` gives, and whose rows these are.
use networkdisk.Prelude.{
  ℕ, ◌+◌, ◌≡◌, refl, sym, ◌∙◌, ap, inl, inr, Bool, some, List, [], ◌∷◌, arith, ◌==◌, Option-cases,
  Bool-cases, In, here, there, select, In-select, contains-In,
}
use networkdisk.Model.{File, Db, Env, World}
use networkdisk.Exec.{ok}
use networkdisk.Store.Sql.{in_ids}
use networkdisk.Store.Files.{files_by_ids}
use networkdisk.Store.Tree.{descendants, descendant_ids, ids_of, with_flag}
use networkdisk.Store.Tree.Below.{Below, child, deeper, descendants_sound}
use networkdisk.Steps.{Owns, OwnsAll}
use networkdisk.Steps.Sound.{IsSound, Owns-In, OwnsAll-one}
use networkdisk.Files.Trash.{subtree}

In-ids_of : (k : ℕ) (fs : List File) → In k (ids_of fs) → (f : File) × In f fs × (k ≡ f.id)
In-ids_of k [] m = elim m [ ]
In-ids_of k (f ∷ fs) (here e) = (f, here refl, e)
In-ids_of k (f ∷ fs) (there m) = let r = In-ids_of k fs m in (r.0, there r.1, r.2)

Below-In : {files : List File} {i : ℕ} (f : File) → Below files i f → In f files
Below-In f (child m e) = m
Below-In f (deeper b m e) = m

-- In a sound database whatever lies below a row of a user belongs to that user.
pub Below-owner :
    {u i : ℕ} {f : File} {d : Db}
    → IsSound d
    → Owns u i f d
    → (g : File) → Below d.files i g
    → g.user_id ≡ u
Below-owner {f = f} s o g (child m e) =
    let r = Owns-In o in s.owned g f m r.0 (e ∙ ap some (sym r.1)) ∙ o.owner
Below-owner s o g (deeper {g = h} b m e) = s.owned g h m (Below-In h b) e ∙ Below-owner s o h b

files_by_ids-db : (ids : List ℕ) (v : Env) (w : World) → (files_by_ids ids v w).1.db ≡ w.db
unfolding files_by_ids
files_by_ids-db [] v w = refl
files_by_ids-db (i ∷ is) v w = ground arith

files_by_ids-ok :
    (ids : List ℕ) (v : Env) (w : World) (fs : List File)
    → (files_by_ids ids v w).0 ≡ ok fs
    → (f : File) → In f fs
    → In f w.db.files × In f.id ids
unfolding files_by_ids
files_by_ids-ok [] v w fs h f m = absurd (no_rows fs h m)
  where
    no_rows : (fs : List File) → ok [] ≡ ok fs → In f fs → ⊥
    no_rows [] h m = elim m [ ]
    no_rows (x ∷ fs) h m = cc
files_by_ids-ok (i ∷ is) v w fs h f m =
    let q : fs ≡ select (in_ids (i ∷ is)) w.db.files = ground arith in
    let r = In-select (in_ids (i ∷ is)) w.db.files f (rw q at m) in
    (r.0, contains-In f.id (i ∷ is) r.1)

module _ (i : ℕ) (flag : Bool) (v : Env) (w : World) where
  pub subtree-db : (subtree i flag v w).1.db ≡ w.db
  unfolding subtree descendant_ids
  subtree-db = elim (Option-cases (descendants v w.db i)) [
    | inl e ↦ ground arith
    | inr (fs, e) ↦ ground (
      arith,
      files_by_ids-db (ids_of (select (with_flag flag) fs)) v (record w { calls = w.calls + 1 }),
    )
  ]

  -- Every row of the result lies below the directory.
  pub subtree-Below :
      (fs : List File)
      → IsSound w.db
      → (subtree i flag v w).0 ≡ ok fs
      → (f : File) → In f fs
      → Below w.db.files i f
  unfolding subtree descendant_ids
  subtree-Below fs s h f m = elim (Option-cases (descendants v w.db i)) [
    | inl e ↦ ground arith
    | inr (ds, e) ↦
        let ids = ids_of (select (with_flag flag) ds) in
        let w' : World = record w { calls = w.calls + 1 } in
        let q : (files_by_ids ids v w').0 ≡ ok fs = ground arith in
        let r = files_by_ids-ok ids v w' fs q f m in
        let b = In-ids_of f.id (select (with_flag flag) ds) r.1 in
        let k = In-select (with_flag flag) ds b.0 b.1 in
        let below = descendants_sound v w.db i ds e b.0 k.0 in
        rw (s.unique f b.0 r.0 (Below-In b.0 below) b.2) below
  ]

  -- The rows that a deletion or a restoration of `i` changes are `u`'s.
  pub subtree-OwnsAll :
      {u : ℕ} {g : File} (fs : List File)
      → IsSound w.db
      → Owns u i g w.db
      → (subtree i flag v w).0 ≡ ok fs
      → OwnsAll u (i ∷ ids_of fs) w.db
  subtree-OwnsAll {u} {g} fs s o h x m k = elim (Bool-cases (x.id == i)) [
    | inl e ↦ OwnsAll-one s o x m e
    | inr e ↦
        let b = In-ids_of x.id fs (contains-In x.id (ids_of fs) (ground arith)) in
        let below = subtree-Below fs s h b.0 b.1 in
        let q : x ≡ b.0 = s.unique x b.0 m (Below-In b.0 below) b.2 in
        rw q (Below-owner s o b.0 below)
  ]
