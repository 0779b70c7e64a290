-- ===== src/Store/Tree.antt =====
-- The recursive queries of internal/store/file.go. Each round of `WITH RECURSIVE` joins the rows of
-- the round before with `files`; MySQL gives up after `cte_max_recursion_depth` rounds.
pub mod Below
use networkdisk.Prelude.{
  ℕ, zero, suc, ◌+◌, Bool, true, false, not, ◌&&◌, Option, none, some, List, [], ◌∷◌, ◌++◌, ◌==◌,
  if◌then◌else◌, map, select, first,
}
use networkdisk.Model.{File, Db, Env, World}
use networkdisk.Exec.{Result, ok, err, recursion_limit, Exec, call}
use networkdisk.Store.Sql.{has_id, has_parent, is_live, must_be_positive}

-- One join: the rows whose parent is a row of the round before.
unfoldable pub children_of : List File → List File → List File
children_of files [] = []
children_of files (d ∷ ds) = select (has_parent (some d.id)) files ++ children_of files ds

abbrev append_round : List File → Option (List File) → Option (List File)
append_round level none = none
append_round level (some rest) = some (level ++ rest)

unfoldable pub descend : ℕ → List File → List File → Option (List File)
unfolding children_of
descend n files [] = some []
descend zero files (d ∷ ds) = none
descend (suc n) files (d ∷ ds) =
    append_round (d ∷ ds) (descend n files (children_of files (d ∷ ds)))

abbrev pub ids_of : List File → List ℕ
ids_of [] = []
ids_of (f ∷ fs) = f.id ∷ ids_of fs

abbrev pub with_flag : Bool → File → Bool
with_flag deleted f = if deleted then f.is_deleted else not f.is_deleted

abbrev pub or_limit : {A : Type 0} → Option A → Result A
or_limit none = err recursion_limit
or_limit (some a) = ok a

unfoldable pub descendants : Env → Db → ℕ → Option (List File)
unfolding descend
descendants v d root = descend v.cte_depth d.files (select (has_parent (some root)) d.files)

abbrev pub flagged_ids : Bool → Option (List File) → Option (List ℕ)
flagged_ids deleted none = none
flagged_ids deleted (some fs) = some (ids_of (select (with_flag deleted) fs))

unfoldable pub descendant_ids : ℕ → Bool → Exec (List ℕ)
unfolding call descendants
descendant_ids root deleted =
    must_be_positive root
      (call λ v w. (or_limit (flagged_ids deleted (descendants v w.db root)), w))
