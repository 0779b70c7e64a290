-- ===== src/Tags.antt =====
-- internal/service/tag.go: tags of a user, and the files that bear them.
pub mod Owned
pub mod Attach
pub mod Rows
pub mod Requests
use networkdisk.Prelude.{
  ℕ, Bool, true, false, not, ◌&&◌, ◌||◌, List, [], ◌∷◌, leb, ◌==◌, if◌then◌else◌, length,
}
use networkdisk.Text.{Text, bytes}
use networkdisk.Model.{File, Tag}
use networkdisk.Exec.{bad_color, not_your_tag, not_your_file, Exec, pure, refuse_if, ◌>>=◌, ◌>>◌}
use networkdisk.Store.Sql.{is_empty}
use networkdisk.Store.Files
use networkdisk.Store.Tags as Table

abbrev is_hex : ℕ → Bool
is_hex b = (leb 48 b && leb b 57) || (leb 97 b && leb b 102) || (leb 65 b && leb b 70)

abbrev all_hex : Text → Bool
all_hex [] = true
all_hex (b ∷ s) = is_hex b && all_hex s

-- `hexColorPattern`.
abbrev pub is_color : Text → Bool
is_color [] = false
is_color (b ∷ s) = b == 35 && (length s == 3 || length s == 6) && all_hex s

abbrev default_color : Text
default_color = bytes "#3b82f6"

abbrev or_default_color : Text → Text
or_default_color c = if is_empty c then default_color else c

unfoldable pub create : ℕ → Text → Text → Exec Tag
unfolding ◌>>=◌ refuse_if
create u n c =
    refuse_if (not (is_color (or_default_color c))) bad_color
    >> Table.create_tag (record { id = 0; user_id = u; name = n; color = or_default_color c })

unfoldable pub list : ℕ → Exec (List Tag)
list u = Table.tags_by_user u

-- The look-up of a tag of the user.
unfoldable pub own_tag : ℕ → ℕ → Exec Tag
unfolding ◌>>=◌ refuse_if
own_tag u i = do t ← Table.tag_by_id i; refuse_if (not (t.user_id == u)) not_your_tag; pure t

unfoldable pub delete : ℕ → ℕ → Exec (Unit {0})
unfolding ◌>>=◌
delete u i = own_tag u i >> Table.delete_tag i

-- The loop over the tags.
unfoldable pub check_tags : ℕ → List ℕ → Exec (Unit {0})
unfolding ◌>>=◌
check_tags u [] = pure tt
check_tags u (i ∷ is) = own_tag u i >> check_tags u is

abbrev all_of : ℕ → List File → Bool
all_of u [] = true
all_of u (f ∷ fs) = f.user_id == u && all_of u fs

-- The loop that attaches, one transaction for each file.
unfoldable pub attach_each : List ℕ → List ℕ → Exec (Unit {0})
unfolding ◌>>=◌
attach_each ts [] = pure tt
attach_each ts (f ∷ fs) = Table.attach_file_tags f ts >> attach_each ts fs

unfoldable pub attach_files : ℕ → List ℕ → List ℕ → Exec (Unit {0})
unfolding ◌>>=◌ refuse_if
attach_files u ts fs = do
  check_tags u ts
  files ← Files.files_by_ids fs
  refuse_if (not (all_of u files)) not_your_file
  attach_each ts fs

unfoldable pub files_by_tag : ℕ → ℕ → Exec (List File)
unfolding ◌>>=◌
files_by_tag u i = do own_tag u i; ids ← Table.file_ids_by_tag i u; Files.files_by_ids ids
