-- ===== src/Files/Requests.antt =====
-- The requests of a user that write to the tables of files, and what any sequence of them keeps.
use mathlib.Core.Path.{subst}
use networkdisk.Prelude.{ℕ, ◌≡◌, refl, ◌∙◌, Bool, true, false, Option, List, [], ◌∷◌}
use networkdisk.Text.{Text}
use networkdisk.Model.{Env, World}
use networkdisk.Steps.{Reach}
use networkdisk.Steps.Sound.{IsSound, Reach-IsSound}
use networkdisk.Steps.Foreign.{SameForeign, Reach-SameForeign}
use networkdisk.Steps.Names.{IsCollation, NamesApart, Reach-NamesApart}
use networkdisk.Files.Place as Place
use networkdisk.Files.Place.Refine.{
  rename_file-Reach, create_dir-Reach, toggle_star-Reach, move_file-Reach,
}
use networkdisk.Files.Place.Copy.{copy_file-Reach}
use networkdisk.Files.Place.BatchMove.{batch_move-Reach}
use networkdisk.Files.Trash as Trash
use networkdisk.Files.Trash.Refine.{delete_file-Reach}
use networkdisk.Files.Trash.Restored.{restore_file-Reach}
use networkdisk.Files.Trash.Batch.{batch_delete-Reach}
use networkdisk.Files.Purge as Purge
use networkdisk.Files.Purge.Refine.{permanent_delete_file-Reach}
use networkdisk.Files.Quota as Quota
use networkdisk.Files.Quota.Calibrate.{calibrate_storage-Reach}

pub data Request : Type 0 where
  create_dir : Text → Option ℕ → Request
  rename_file : ℕ → Text → Request
  move_file : ℕ → Option ℕ → Request
  copy_file : ℕ → Option ℕ → Request
  toggle_star : ℕ → Request
  delete_file : ℕ → Request
  batch_delete : List ℕ → Request
  permanent_delete_file : ℕ → Request
  restore_file : ℕ → Request
  batch_move : List ℕ → Option ℕ → Request
  calibrate_storage : Request

-- The state after a call of `FileService`, whether it succeeds or fails.
pub serve : ℕ → Request → Env → World → World
serve u (create_dir n parent) v w = (Place.create_dir n parent u v w).1
serve u (rename_file i n) v w = (Place.rename_file i n u v w).1
serve u (move_file i target) v w = (Place.move_file i target u v w).1
serve u (copy_file i target) v w = (Place.copy_file i target u v w).1
serve u (toggle_star i) v w = (Place.toggle_star i u v w).1
serve u (delete_file i) v w = (Trash.delete_file i u v w).1
serve u (batch_delete ids) v w = (Trash.batch_delete ids u v w).1
serve u (permanent_delete_file i) v w = (Purge.permanent_delete_file i u v w).1
serve u (restore_file i) v w = (Trash.restore_file i u v w).1
serve u (batch_move ids target) v w = (Place.batch_move ids target u v w).1
serve u calibrate_storage v w = (Quota.calibrate_storage u v w).1

-- The requests that compare every name they give with the names in the directory.
abbrev pub looks_at_names : Request → Bool
looks_at_names (restore_file i) = false
looks_at_names (batch_move ids target) = false
looks_at_names _ = true

-- From a sound database a request of a user, whether it succeeds or fails, is a sequence of steps of
-- the specification on behalf of that user; unless it is a restoration or a batch move, all of them
-- look at names.
pub serve-Reach :
    (u : ℕ) (r : Request) (v : Env) (w : World)
    → IsSound w.db
    → Reach v u (looks_at_names r) w.db (serve u r v w).db
unfolding serve
serve-Reach u (create_dir n parent) v w s = create_dir-Reach u v w n parent
serve-Reach u (rename_file i n) v w s = rename_file-Reach u i n v w
serve-Reach u (move_file i target) v w s = move_file-Reach u v w i target
serve-Reach u (copy_file i target) v w s = copy_file-Reach i u v w target
serve-Reach u (toggle_star i) v w s = toggle_star-Reach u v w i
serve-Reach u (delete_file i) v w s = delete_file-Reach i u v w s
serve-Reach u (batch_delete ids) v w s = batch_delete-Reach ids u v w s
serve-Reach u (permanent_delete_file i) v w s = permanent_delete_file-Reach i u v w s
serve-Reach u (restore_file i) v w s = restore_file-Reach i u v w s
serve-Reach u (batch_move ids target) v w s = batch_move-Reach ids target u v w s
serve-Reach u calibrate_storage v w s = calibrate_storage-Reach u v w

-- A sequence of requests of several users, each served to its end.
pub run : List (ℕ × Request) → Env → World → World
run [] v w = w
run ((u, r) ∷ rs) v w = run rs v (serve u r v w)

-- The invariant of the table of files is kept by every sequence of requests of any users, whichever
-- calls of the database fail: numbers stay unique, and a row belongs to the owner of its directory.
pub run-IsSound :
    (rs : List (ℕ × Request)) (v : Env) (w : World) → IsSound w.db → IsSound (run rs v w).db
unfolding run
run-IsSound [] v w s = s
run-IsSound ((u, r) ∷ rs) v w s =
    run-IsSound rs v (serve u r v w) (Reach-IsSound (serve-Reach u r v w s) s)

-- The requests of one user.
abbrev pub of_user : ℕ → List Request → List (ℕ × Request)
of_user u [] = []
of_user u (r ∷ rs) = (u, r) ∷ of_user u rs

-- From a sound database no sequence of requests of one user changes a row of `files` that belongs to
-- another user, or the row of another user in `users`, whichever calls of the database fail.
pub run-SameForeign :
    (u : ℕ) (rs : List Request) (v : Env) (w : World)
    → IsSound w.db
    → SameForeign u w.db (run (of_user u rs) v w).db
unfolding run
run-SameForeign u [] v w s = record { files = refl; users = refl }
run-SameForeign u (r ∷ rs) v w s =
    let c = serve-Reach u r v w s in
    let a = Reach-SameForeign s c in
    let b = run-SameForeign u rs v (serve u r v w) (Reach-IsSound c s) in
    record { files = b.files ∙ a.files; users = b.users ∙ a.users }

abbrev pub AllLook : List (ℕ × Request) → Type 0
AllLook [] = Unit
AllLook ((u, r) ∷ rs) = (looks_at_names r ≡ true) × AllLook rs

-- From a sound database in which live rows of one owner and directory have different names, a
-- sequence of requests of any users that has no restoration and no batch move leads to such a
-- database again, if the collation is symmetric.
pub run-NamesApart :
    (rs : List (ℕ × Request)) (v : Env) (w : World)
    → IsCollation v
    → IsSound w.db
    → NamesApart v w.db
    → AllLook rs
    → NamesApart v (run rs v w).db
unfolding run
run-NamesApart [] v w c s a h = a
run-NamesApart ((u, r) ∷ rs) v w c s a (look, h) =
    let x = serve-Reach u r v w s in
    run-NamesApart rs v (serve u r v w) c (Reach-IsSound x s)
      (Reach-NamesApart c s a (subst (λ b. Reach v u b w.db (serve u r v w).db) look x)) h
