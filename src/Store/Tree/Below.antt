-- ===== src/Store/Tree/Below.antt =====
-- The recursive query against the relation that it stands for: a row lies below a directory if its
-- chain of parents leads there.
use networkdisk.Prelude.{
  ℕ, zero, suc, ◌≡◌, refl, inl, inr, true, Option, none, some, List, [], ◌∷◌, ◌++◌, arith, In, here,
  there, select, In-select, select-In, In-append, append_left, append_right,
}
use networkdisk.Model.{File, Db, Env}
use networkdisk.Store.Sql.{has_parent}
use networkdisk.Store.Tree.{children_of, descend, descendants, append_round}

-- `Below files root f`: `f` is a row, and its parent is `root` or a row below `root`.
pub data Below (files : List File) (root : ℕ) : File → Type 0 where
  child : {f : File} → In f files → f.parent_id ≡ some root → Below files root f
  deeper :
      {f g : File} → Below files root g → In f files → f.parent_id ≡ some g.id → Below files root f

has_parent→eq : (p : ℕ) (f : File) → has_parent (some p) f ≡ true → f.parent_id ≡ some p
has_parent→eq p f h = ground arith

pub eq→has_parent : (p : ℕ) (f : File) → f.parent_id ≡ some p → has_parent (some p) f ≡ true
eq→has_parent p f h = ground arith

children_of_sound :
    (files : List File) (level : List File) (f : File)
    → In f (children_of files level)
    → (g : File) × In g level × In f files × (f.parent_id ≡ some g.id)
unfolding children_of
children_of_sound files [] f m = elim m [ ]
children_of_sound files (d ∷ ds) f m =
    elim (In-append (select (has_parent (some d.id)) files) (children_of files ds) m) [
      | inl n ↦
          let r = In-select (has_parent (some d.id)) files f n in
          (d, here refl, r.0, has_parent→eq d.id f r.1)
      | inr n ↦ let r = children_of_sound files ds f n in (r.0, there r.1, r.2, r.3)
    ]

children_of_complete :
    (files : List File) (level : List File) (f g : File)
    → In g level
    → In f files
    → f.parent_id ≡ some g.id
    → In f (children_of files level)
unfolding children_of
children_of_complete files [] f g m n h = elim m [ ]
children_of_complete files (d ∷ ds) f g (here e) n h =
    append_left (select (has_parent (some d.id)) files) (children_of files ds)
      (select-In (has_parent (some d.id)) files f n (eq→has_parent d.id f (rw (← e) h)))
children_of_complete files (d ∷ ds) f g (there m) n h =
    append_right (select (has_parent (some d.id)) files) (children_of files ds)
      (children_of_complete files ds f g m n h)

append_round-some :
    (level : List File) (o : Option (List File)) (r : List File)
    → append_round level o ≡ some r
    → (rest : List File) × (o ≡ some rest) × (r ≡ level ++ rest)
append_round-some level none r h = cc
append_round-some level (some rest) r h = (rest, refl, ground arith)

In-none : {f : File} (r : List File) → some [] ≡ some r → In f r → ⊥
In-none [] h m = elim m [ ]
In-none (g ∷ r) h m = cc

descend_sound :
    (n : ℕ) (files level : List File) (root : ℕ) (r : List File) (f : File)
    → ((g : File) → In g level → Below files root g)
    → descend n files level ≡ some r
    → In f r
    → Below files root f
unfolding descend
descend_sound zero files [] root r f all h m = absurd (In-none r h m)
descend_sound (suc n) files [] root r f all h m = absurd (In-none r h m)
descend_sound zero files (d ∷ ds) root r f all h m = cc
descend_sound (suc n) files (d ∷ ds) root r f all h m =
    let next : (g : File) → In g (children_of files (d ∷ ds)) → Below files root g =
      λ g k. let c = children_of_sound files (d ∷ ds) g k in deeper (all c.0 c.1) c.2 c.3 in
    let s = append_round-some (d ∷ ds) (descend n files (children_of files (d ∷ ds))) r h in
    elim (In-append (d ∷ ds) s.0 (rw s.2 at m)) [
      | inl k ↦ all f k
      | inr k ↦ descend_sound n files (children_of files (d ∷ ds)) root s.0 f next s.1 k
    ]

-- Every round is in the result, and the children of what is in the result are.
descend_complete :
    (n : ℕ) (files level : List File) (r : List File) (f : File)
    → descend n files level ≡ some r
    → In f level
    → In f r
unfolding descend
descend_complete n files [] r f h m = elim m [ ]
descend_complete zero files (d ∷ ds) r f h m = cc
descend_complete (suc n) files (d ∷ ds) r f h m =
    let s = append_round-some (d ∷ ds) (descend n files (children_of files (d ∷ ds))) r h in
    rw s.2 (append_left (d ∷ ds) s.0 m)

descend_closed :
    (n : ℕ) (files level : List File) (r : List File) (f g : File)
    → descend n files level ≡ some r
    → In g r
    → In f files
    → f.parent_id ≡ some g.id
    → In f r
unfolding descend
descend_closed zero files [] r f g h m k e = absurd (In-none r h m)
descend_closed (suc n) files [] r f g h m k e = absurd (In-none r h m)
descend_closed zero files (d ∷ ds) r f g h m k e = cc
descend_closed (suc n) files (d ∷ ds) r f g h m k e =
    let s = append_round-some (d ∷ ds) (descend n files (children_of files (d ∷ ds))) r h in
    rw s.2 (
      append_right (d ∷ ds) s.0 (elim (In-append (d ∷ ds) s.0 (rw s.2 at m)) [
        | inl j ↦
            descend_complete n files (children_of files (d ∷ ds)) s.0 f s.1
              (children_of_complete files (d ∷ ds) f g j k e)
        | inr j ↦ descend_closed n files (children_of files (d ∷ ds)) s.0 f g s.1 j k e
      ]))

module _ (v : Env) (d : Db) (root : ℕ) (r : List File) (found : descendants v d root ≡ some r) where
  -- What the query gives lies below the directory.
  pub descendants_sound : (f : File) → In f r → Below d.files root f
  unfolding descendants
  descendants_sound f m =
      descend_sound v.cte_depth d.files (select (has_parent (some root)) d.files) root r f
        (λ g k.
          let s = In-select (has_parent (some root)) d.files g k in
          child s.0 (has_parent→eq root g s.1))
        found m

  -- Whatever lies below the directory is given.
  pub descendants_complete : (f : File) → Below d.files root f → In f r
  unfolding descendants
  descendants_complete f (child m e) =
      descend_complete v.cte_depth d.files (select (has_parent (some root)) d.files) r f found
        (select-In (has_parent (some root)) d.files f m (eq→has_parent root f e))
  descendants_complete f (deeper {g = g} b m e) =
      descend_closed v.cte_depth d.files (select (has_parent (some root)) d.files) r f g found
        (descendants_complete g b) m e

  -- If the recursive query returns rows, these are exactly the rows below the directory: each row
  -- that it returns lies below it, and each row below it is returned.
  pub descendants-Below :
      (f : File) → (In f r → Below d.files root f) × (Below d.files root f → In f r)
  descendants-Below f = (descendants_sound f, descendants_complete f)
