-- ===== src/Files/Trash.antt =====
-- internal/service/file.go: deletion into the recycle bin, and restoration.
pub mod Atomic
pub mod Restored
pub mod Batch
pub mod Refine
pub mod Subtree
use networkdisk.Prelude.{
  ℕ, zero, suc, ◌+◌, Bool, true, false, not, ◌&&◌, ◌||◌, Option, none, some, List, [], ◌∷◌, ◌++◌,
  ◌==◌, ltb, if◌then◌else◌,
}
use networkdisk.Prelude.Int.{ℤ, pos, is_zero, ◌+ℤ◌, ◌-ℤ◌}
use networkdisk.Model.{File, Env, World}
use networkdisk.Exec.{
  Result, ok, err, file_not_found, parent_missing, nothing_selected, absent, Exec, pure, raise,
  refuse_if, on_no_rows, attempt, transaction, ◌>>=◌, ◌>>◌,
}
use networkdisk.Store.Files
use networkdisk.Store.Tx
use networkdisk.Store.Tree.{descendant_ids, ids_of}

-- The loop `sizeDelta -= child.Size` over the children that are no directories.
abbrev pub sub_sizes : ℤ → List File → ℤ
sub_sizes d [] = d
sub_sizes d (c ∷ cs) = sub_sizes (if c.is_dir then d else d -ℤ pos c.size) cs

abbrev pub add_sizes : ℤ → List File → ℤ
add_sizes d [] = d
add_sizes d (c ∷ cs) = add_sizes (if c.is_dir then d else d +ℤ pos c.size) cs

-- `DescendantIDs` and, if there are any, `FilesByIDs`.
unfoldable pub subtree : ℕ → Bool → Exec (List File)
unfolding ◌>>=◌
subtree root deleted = do ids ← descendant_ids root deleted; Files.files_by_ids ids

-- `if sizeDelta != 0 { tx.UpdateUserStorageUsed(…) }`.
abbrev pub charge : ℕ → ℤ → Exec (Unit {0})
charge u delta = if is_zero delta then pure tt else Tx.update_user_storage_used u delta

unfoldable pub delete_file : ℕ → ℕ → Exec (Unit {0})
unfolding ◌>>=◌ on_no_rows refuse_if transaction
delete_file i u = do
  f ← on_no_rows file_not_found (Files.file_by_id i)
  refuse_if (not (f.user_id == u)) file_not_found
  below ← if f.is_dir then subtree i false else pure []
  transaction (
      Tx.batch_soft_delete (i ∷ ids_of below)
      >> charge u (if f.is_dir then sub_sizes (pos 0) below else pos 0 -ℤ pos f.size))

-- Does the parent of a restored row have to be given up?
abbrev parent_lost : ℕ → Option File → Bool
parent_lost u none = true
parent_lost u (some p) = not (p.user_id == u) || p.is_deleted

unfoldable pub lost_parent : Option ℕ → ℕ → Exec Bool
unfolding ◌>>=◌ attempt
lost_parent none u = pure false
lost_parent (some p) u = do parent ← attempt (Files.file_by_id p); pure (parent_lost u parent)

unfoldable pub restore_file : ℕ → ℕ → Exec File
unfolding ◌>>=◌ refuse_if transaction attempt
restore_file i u = do
  f ← Files.file_by_id i
  refuse_if (not (f.user_id == u) || not f.is_deleted) file_not_found
  lost ← lost_parent f.parent_id u
  refuse_if (lost && not f.is_dir) parent_missing
  below ← if f.is_dir then subtree i true else pure []
  transaction (
      Tx.restore_files (i ∷ ids_of below)
      >> (if lost then Tx.update_file_parent_id i none else pure tt)
      >> charge u (if f.is_dir then add_sizes (pos 0) below else pos f.size))
  Files.file_by_id i

-- The loop of `BatchDelete` over the selected ids; `all` and `delta` are its variables.
unfoldable pub collect_deletions : List ℕ → ℕ → List ℕ → ℤ → Exec (List ℕ × ℤ)
unfolding ◌>>=◌ refuse_if
collect_deletions [] u all delta = pure (all, delta)
collect_deletions (i ∷ is) u all delta = do
  f ← Files.file_by_id i
  refuse_if (not (f.user_id == u) || f.is_deleted) (absent i)
  below ← if f.is_dir then subtree i false else pure []
  collect_deletions is u (all ++ (i ∷ ids_of below))
      (if f.is_dir then sub_sizes delta below else delta -ℤ pos f.size)

unfoldable pub batch_delete : List ℕ → ℕ → Exec (Unit {0})
unfolding ◌>>=◌ transaction
batch_delete [] u = raise nothing_selected
batch_delete (i ∷ is) u = do
  c ← collect_deletions (i ∷ is) u [] (pos 0)
  transaction (Tx.batch_soft_delete c.0 >> charge u c.1)
