-- ===== src/Uploads/Whole.antt =====
-- What a whole call of `UploadFile` or `CompleteUpload` does to the database.
use mathlib.Core.Path.{subst}
use networkdisk.Prelude.{
  ℕ, zero, suc, ◌+◌, ◌≡◌, refl, ◌∙◌, ◌⊎◌, inl, inr, Option, none, some, arith, Option-cases, first,
  first-some, In,
}
use networkdisk.Text.{Text, trim_space, leading}
use networkdisk.Model.{File, Db, Env, World, UploadDir}
use networkdisk.Exec.{Result, Error, ok, err, Result-cases, tick}
use networkdisk.Store.Sql.{has_id}
use networkdisk.Store.Files
use networkdisk.Steps.{MayHold}
use networkdisk.Steps.Sound.{IsSound}
use networkdisk.Files.Guards.{validate_parent_dir, validate_extension}
use networkdisk.Uploads.{upload_file, upload_row, find_by_hash, lower_ext, receive, place_upload}
use networkdisk.Uploads.Effect.{Uploaded, place_upload-Uploaded}
use networkdisk.Uploads.Joined.{place_session-Uploaded}
use networkdisk.Uploads.Chunks.{
  is_upload, load_upload_session, load_own, check_chunks, merge_chunks, place_session, session_row,
  complete_upload,
}

pub find-db : (h : Text) (v : Env) (w : World) → (find_by_hash h v w).1.db ≡ w.db
unfolding find_by_hash Files.file_by_hash
find-db h v w = ground arith

pub check-world :
    (x : UploadDir) (k rounds : ℕ) (v : Env) (w : World) → (check_chunks x k rounds v w).1 ≡ w
unfolding check_chunks
check-world x k zero v w = refl
check-world x k (suc rounds) v w = elim (Option-cases (x.chunks k)) [
  | inl q ↦ ground arith
  | inr (c, q) ↦ ground (arith, check-world x (k + 1) rounds v w)
]

merge-db :
    (x : UploadDir) (k rounds : ℕ) (v : Env) (w : World) → (merge_chunks x k rounds v w).1.db ≡ w.db
unfolding merge_chunks
merge-db x k zero v w = refl
merge-db x k (suc rounds) v w = elim (Option-cases (x.chunks k)) [
  | inl q ↦ ground arith
  | inr (c, q) ↦ elim (Result-cases (merge_chunks x (k + 1) rounds v (tick w)).0) [
    | inl (t, r) ↦ ground (arith, merge-db x (k + 1) rounds v (tick w))
    | inr (t, r) ↦ ground (arith, merge-db x (k + 1) rounds v (tick w))
  ]
]

pub load-world : (i : Text) (u : ℕ) (v : Env) (w : World) → (load_own i u v w).1 ≡ w
unfolding load_own load_upload_session
load-world i u v w = elim (Option-cases (first (is_upload i) w.uploads)) [
  | inl q ↦ ground arith
  | inr (x, q) ↦ ground arith
]

-- A session that is loaded is one of the user's, and there.
pub load_ok :
    (i : Text) (u : ℕ) (v : Env) (w : World) (x : UploadDir)
    → (load_own i u v w).0 ≡ ok x
    → In x w.uploads × (x.session.user_id ≡ u)
unfolding load_own load_upload_session
load_ok i u v w x h = elim (Option-cases (first (is_upload i) w.uploads)) [
  | inl q ↦ absurd (ground arith)
  | inr (y, q) ↦
      let e : y ≡ x = ground arith in
      let m = first-some (is_upload i) w.uploads y q in
      (subst (λ z. In z w.uploads) e m.0, ground arith)
]

module _ (i : Text) (u : ℕ) (v : Env) (w : World) where
  pub complete_refused :
      (e : Error) → (load_own i u v w).0 ≡ err e → (complete_upload i u v w).1.db ≡ w.db
  unfolding complete_upload
  complete_refused e h = ground (arith, load-world i u v w)

  module _ (x : UploadDir) (loaded : (load_own i u v w).0 ≡ ok x) where
    abbrev merged : Result Text × World
    merged = merge_chunks x 0 x.session.chunk_count v (tick w)

    abbrev looked : Text → Result (Option File) × World
    looked content = find_by_hash (v.sha256_hex content) v merged.1

    abbrev joined : Text → Option File → Db
    joined content same =
        (place_session same i (lower_ext x.session.name v) content (session_row x.session content v)
          v (looked content).1).1.db

    complete_stopped :
        (e : Error)
        → ((check_chunks x 0 x.session.chunk_count v w).0 ≡ err e)
          ⊎ (((check_chunks x 0 x.session.chunk_count v w).0 ≡ ok tt) × (merged.0 ≡ err e))
        → (complete_upload i u v w).1.db ≡ w.db
    unfolding complete_upload
    complete_stopped e (inl h) =
        ground (arith, load-world i u v w, check-world x 0 x.session.chunk_count v w)
    complete_stopped e (inr (h, k)) = ground (
      arith,
      load-world i u v w,
      check-world x 0 x.session.chunk_count v w,
      merge-db x 0 x.session.chunk_count v (tick w),
    )

    complete_lost :
        (content : Text) (e : Error)
        → (check_chunks x 0 x.session.chunk_count v w).0 ≡ ok tt
        → merged.0 ≡ ok content
        → (looked content).0 ≡ err e
        → (complete_upload i u v w).1.db ≡ w.db
    unfolding complete_upload
    complete_lost content e h k q = ground (
      arith,
      load-world i u v w,
      check-world x 0 x.session.chunk_count v w,
      merge-db x 0 x.session.chunk_count v (tick w),
      find-db (v.sha256_hex content) v merged.1,
    )

    complete_placed :
        (content : Text) (same : Option File)
        → (check_chunks x 0 x.session.chunk_count v w).0 ≡ ok tt
        → merged.0 ≡ ok content
        → (looked content).0 ≡ ok same
        → ((complete_upload i u v w).1.db ≡ w.db)
          ⊎ ((complete_upload i u v w).1.db ≡ joined content same)
    unfolding complete_upload
    complete_placed content same h k q =
        ground (arith, load-world i u v w, check-world x 0 x.session.chunk_count v w)

    looked-db : (content : Text) → (looked content).1.db ≡ w.db
    looked-db content =
        find-db (v.sha256_hex content) v merged.1 ∙ merge-db x 0 x.session.chunk_count v (tick w)

    pub complete-Uploaded :
        Uploaded x.session.user_id x.session.parent_id w.db (complete_upload i u v w).1.db
    complete-Uploaded = elim (Result-cases (check_chunks x 0 x.session.chunk_count v w).0) [
      | inr (e, h) ↦ inl (complete_stopped e (inl h))
      | inl (k, h) ↦ elim (Result-cases merged.0) [
        | inr (e, m) ↦ inl (complete_stopped e (inr (h, m)))
        | inl (content, m) ↦ elim (Result-cases (looked content).0) [
          | inr (e, q) ↦ inl (complete_lost content e h m q)
          | inl (same, q) ↦ elim (complete_placed content same h m q) [
            | inl e ↦ inl e
            | inr e ↦ rw e (
                subst (λ d. Uploaded x.session.user_id x.session.parent_id d (joined content same))
                  (looked-db content)
                  (place_session-Uploaded i (lower_ext x.session.name v) content
                    (session_row x.session content v) v (looked content).1 same))
          ]
        ]
      ]
    ]

module _ (body raw : Text) (u : ℕ) (v : Env) (w : World) where
  abbrev content : Text
  content = leading (v.cfg.max_file_size + 1) body

  -- The state in which the hash is looked for: the directory has been read, the file created and
  -- written.
  abbrev at_look : Option ℕ → World
  at_look none = tick (tick w)
  at_look (some p) = tick (tick (tick w))

  abbrev found : Option ℕ → Result (Option File) × World
  found parent = find_by_hash (v.sha256_hex content) v (at_look parent)

  abbrev uploaded : Option ℕ → Option File → Db
  uploaded parent same =
      (place_upload same (trim_space raw) (lower_ext (trim_space raw) v) content
        (upload_row u parent content v) v (found parent).1).1.db

  found-db : (parent : Option ℕ) → (found parent).1.db ≡ w.db
  found-db none = find-db (v.sha256_hex content) v (at_look none)
  found-db (some p) = find-db (v.sha256_hex content) v (at_look (some p))

  upload_root :
      (same : Option File)
      → (found none).0 ≡ ok same
      → ((upload_file body raw none u v w).1.db ≡ w.db)
        ⊎ ((upload_file body raw none u v w).1.db ≡ uploaded none same)
  unfolding upload_file receive validate_extension
  upload_root same h = ground arith

  upload_root_err :
      (e : Error) → (found none).0 ≡ err e → (upload_file body raw none u v w).1.db ≡ w.db
  unfolding upload_file receive validate_extension
  upload_root_err e h = ground (arith, found-db none)

  upload_absent :
      (p : ℕ)
      → first (has_id p) w.db.files ≡ none
      → (upload_file body raw (some p) u v w).1.db ≡ w.db
  unfolding upload_file receive validate_extension validate_parent_dir Files.file_by_id
  upload_absent p h = ground arith

  upload_in :
      (p : ℕ) (g : File) (same : Option File)
      → first (has_id p) w.db.files ≡ some g
      → (found (some p)).0 ≡ ok same
      → ((upload_file body raw (some p) u v w).1.db ≡ w.db)
        ⊎ ((g.user_id ≡ u) × ((upload_file body raw (some p) u v w).1.db ≡ uploaded (some p) same))
  unfolding upload_file receive validate_extension validate_parent_dir Files.file_by_id
  upload_in p g same f h = ground arith

  upload_in_err :
      (p : ℕ) (g : File) (e : Error)
      → first (has_id p) w.db.files ≡ some g
      → (found (some p)).0 ≡ err e
      → (upload_file body raw (some p) u v w).1.db ≡ w.db
  unfolding upload_file receive validate_extension validate_parent_dir Files.file_by_id
  upload_in_err p g e f h = ground (arith, found-db (some p))

  uploaded-Uploaded :
      (parent : Option ℕ) (same : Option File)
      → IsSound w.db
      → Uploaded u parent w.db (uploaded parent same)
  uploaded-Uploaded parent same s =
      subst (λ d. Uploaded u parent d (uploaded parent same)) (found-db parent)
        (place_upload-Uploaded (trim_space raw) (lower_ext (trim_space raw) v) content
          (upload_row u parent content v) v (found parent).1 same (rw (found-db parent) s))

  -- The directory of a row that is placed belongs to the user.
  pub upload-Uploaded :
      (parent : Option ℕ)
      → IsSound w.db
      → ((upload_file body raw parent u v w).1.db ≡ w.db)
        ⊎ (MayHold u parent w.db × Uploaded u parent w.db (upload_file body raw parent u v w).1.db)
  upload-Uploaded none s = elim (Result-cases (found none).0) [
    | inr (e, h) ↦ inl (upload_root_err e h)
    | inl (same, h) ↦ elim (upload_root same h) [
      | inl e ↦ inl e
      | inr e ↦ inr (tt, rw e (uploaded-Uploaded none same s))
    ]
  ]
  upload-Uploaded (some p) s = elim (Option-cases (first (has_id p) w.db.files)) [
    | inl f ↦ inl (upload_absent p f)
    | inr (g, f) ↦ elim (Result-cases (found (some p)).0) [
      | inr (e, h) ↦ inl (upload_in_err p g e f h)
      | inl (same, h) ↦ elim (upload_in p g same f h) [
        | inl e ↦ inl e
        | inr (o, e) ↦
            inr ((g, record { found = f; owner = o }), rw e (uploaded-Uploaded (some p) same s))
      ]
    ]
  ]
