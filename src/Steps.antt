-- ===== src/Steps.antt =====
-- The abstract specification of the file operations: what a call of user `u` may do to the database,
-- as a step relation. `strict` steps keep the names in a directory apart; a restoration, a
-- batch move and an upload are steps that do not look at all the names concerned.
pub mod Sound
pub mod Foreign
pub mod Names
pub mod Owners
use networkdisk.Prelude.{
  ℕ, ◌≡◌, refl, Bool, true, false, not, ◌&&◌, Option, none, some, List, [], ◌∷◌, In, first, any,
  select,
}
use networkdisk.Prelude.Int.{ℤ}
use networkdisk.Text.{Text}
use networkdisk.Model.{File, Db, Env}
use networkdisk.Store.Sql.{
  has_id, has_name, in_ids, update_files, insert_row, trashed, untrashed, in_trash,
}
use networkdisk.Store.Tx.{delete_rows}
use networkdisk.Store.Users.{update_users, add_used}

-- `f` is the row of number `i`, and belongs to `u`.
pub record Owns (u i : ℕ) (f : File) (d : Db) : Type 0 where
  pub found : first (has_id i) d.files ≡ some f
  pub owner : f.user_id ≡ u

-- A directory that `u` may put rows in.
abbrev pub MayHold : ℕ → Option ℕ → Db → Type 0
MayHold u none d = Unit
MayHold u (some p) d = (g : File) × Owns u p g d

-- Every row with one of the numbers belongs to `u`.
abbrev pub OwnsAll : ℕ → List ℕ → Db → Type 0
OwnsAll u ids d = (f : File) → In f d.files → in_ids ids f ≡ true → f.user_id ≡ u

pub data Change (v : Env) (u : ℕ) (strict : Bool) (d d' : Db) : Type 0 where
  rename :
      (i : ℕ) (n : Text) (f : File)
      → Owns u i f d
      → any (has_name v f.parent_id u n) d.files ≡ false
      → d' ≡ update_files (has_id i) (λ f. record f { name = n }) d
      → Change v u strict d d'
  move :
      (i : ℕ) (parent : Option ℕ) (f : File)
      → Owns u i f d
      → MayHold u parent d
      → any (has_name v parent u f.name) d.files ≡ false
      → d' ≡ update_files (has_id i) (λ f. record f { parent_id = parent }) d
      → Change v u strict d d'
  star :
      (i : ℕ) (f : File)
      → Owns u i f d
      → d' ≡ update_files (has_id i) (λ f. record f { is_starred = not f.is_starred }) d
      → Change v u strict d d'
  create :
      (f : File)
      → f.user_id ≡ u
      → MayHold u f.parent_id d
      → any (has_name v f.parent_id u f.name) d.files ≡ false
      → d' ≡ insert_row f d
      → Change v u strict d d'
  add :
      (f : File)
      → strict ≡ false
      → f.user_id ≡ u
      → MayHold u f.parent_id d
      → d' ≡ insert_row f d
      → Change v u strict d d'
  trash :
      (ids : List ℕ) (now : ℕ)
      → OwnsAll u ids d
      → d' ≡ update_files (in_ids ids) (trashed now) d
      → Change v u strict d d'
  purge : (ids : List ℕ) → OwnsAll u ids d → d' ≡ delete_rows ids d → Change v u strict d d'
  charge : (delta : ℤ) → d' ≡ update_users u (add_used delta) d → Change v u strict d d'
  restore :
      (ids : List ℕ)
      → strict ≡ false
      → OwnsAll u ids d
      → d' ≡ update_files (λ f. in_ids ids f && in_trash f) untrashed d
      → Change v u strict d d'
  reparent :
      (ids : List ℕ) (parent : Option ℕ)
      → strict ≡ false
      → OwnsAll u ids d
      → MayHold u parent d
      → d' ≡ update_files (in_ids ids) (λ f. record f { parent_id = parent }) d
      → Change v u strict d d'

pub data Reach (v : Env) (u : ℕ) (strict : Bool) : Db → Db → Type 0 where
  done : {d d' : Db} → d' ≡ d → Reach v u strict d d'
  step : {d e d' : Db} → Change v u strict d e → Reach v u strict e d' → Reach v u strict d d'
