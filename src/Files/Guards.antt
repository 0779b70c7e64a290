-- ===== src/Files/Guards.antt =====
-- internal/service/file.go: the checks that the operations of `FileService` share.
use networkdisk.Prelude.{
  ℕ, zero, suc, ◌+◌, Bool, true, false, not, ◌||◌, Option, none, some, List, [], ◌∷◌, ◌==◌, ltb,
  if◌then◌else◌, length, contains,
}
use networkdisk.Text.{Text, bytes, text_eq, trim_suffix, numbered}
use networkdisk.Exec.{
  ok, err, parent_missing, parent_not_dir, parent_deleted, file_not_found, name_conflict,
  extension_blocked, missing_name, name_too_long, Exec, pure, raise, refuse_if, on_no_rows, ◌>>=◌,
  ◌>>◌,
}
use networkdisk.Store.Sql.{is_empty}
use networkdisk.Store.Files
use networkdisk.Store.Tree.{descendant_ids}

unfoldable pub validate_parent_dir : ℕ → ℕ → Exec (Unit {0})
unfolding ◌>>=◌ on_no_rows refuse_if
validate_parent_dir parent u = do
  dir ← on_no_rows parent_missing (Files.file_by_id parent)
  refuse_if (not dir.is_dir) parent_not_dir
  refuse_if (not (dir.user_id == u)) file_not_found
  refuse_if dir.is_deleted parent_deleted

-- `if parentID != nil { … }`.
abbrev pub validate_parent : Option ℕ → ℕ → Exec (Unit {0})
validate_parent none u = pure tt
validate_parent (some p) u = validate_parent_dir p u

-- A trimmed name that is neither empty nor longer than 255 bytes.
abbrev pub check_name : Text → Exec (Unit {0})
check_name n v w = (
  if is_empty n then err missing_name else if ltb 255 (length n) then err name_too_long else ok tt,
  w,
)

abbrev pub listed : (Text → Text) → Text → List Text → Bool
listed lower e [] = false
listed lower e (a ∷ as') = text_eq e (lower a) || listed lower e as'

abbrev has_any : List Text → Bool
has_any [] = false
has_any (_ ∷ _) = true

unfoldable pub validate_extension : Text → Exec (Unit {0})
validate_extension e v w =
    if has_any v.cfg.allowed_extensions
    then (if listed v.lower e v.cfg.allowed_extensions then ok tt else err extension_blocked, w)
    else (if listed v.lower e v.cfg.blocked_extensions then err extension_blocked else ok tt, w)

unfoldable pub is_descendant_of : ℕ → ℕ → Exec Bool
unfolding ◌>>=◌
is_descendant_of ancestor descendant =
    if ancestor == descendant
    then pure true
    else (do ids ← descendant_ids ancestor false; pure (contains descendant ids))

-- The loop `for i := 1; i < maxRenames; i++`, by the rounds left; `exists` is `FileNameExists`.
unfoldable pub free_name : (Text → Exec Bool) → Text → Text → ℕ → ℕ → Exec Text
unfolding ◌>>=◌
free_name exists base e i zero = raise name_conflict
free_name exists base e i (suc rounds) = do
  taken ← exists (numbered base i e)
  if taken then free_name exists base e (i + 1) rounds else pure (numbered base i e)

abbrev pub max_renames : ℕ
max_renames = 1000

-- `overwriteTarget`.
pub record OverwriteTarget : Type 0 where
  pub id : ℕ
  pub size : ℕ
  pub is_dir : Bool

unfoldable pub resolve_name_conflict :
    Text → Text → Option ℕ → ℕ → Exec (Text × Option OverwriteTarget)
unfolding ◌>>=◌
resolve_name_conflict desired e parent u v =
    (do
      exists ← Files.file_name_exists parent u desired
      if not exists
          then pure (desired, none)
          else if text_eq v.cfg.on_name_conflict (bytes "overwrite")
          then (do
            f ← Files.file_by_name parent u desired
            pure (desired, some (record { id = f.id; size = f.size; is_dir = f.is_dir })))
          else (do
            n ← free_name (Files.file_name_exists parent u) (trim_suffix desired e) e 1 999
            pure (n, none)))
      v
