-- ===== src/Uploads/Kept.antt =====
-- What a whole call of `UploadFile` or `CompleteUpload` that succeeds leaves.
use mathlib.Core.Path.{subst}
use networkdisk.Prelude.{
  ℕ, zero, suc, ◌+◌, ◌≤◌, ◌<◌, ◌≡◌, refl, ap, inl, inr, false, Option, none, some, [], ◌∷◌, arith,
  ltb, Option-cases, first, length,
}
use networkdisk.Text.{Text, trim_space, leading}
use networkdisk.Model.{File, Env, World, UploadDir}
use networkdisk.Exec.{Result, ok, Result-cases, tick}
use networkdisk.Store.Sql.{has_id}
use networkdisk.Store.Files
use networkdisk.Files.Guards.{validate_parent_dir, validate_extension}
use networkdisk.Uploads.{
  UploadResult, place_upload, find_by_hash, upload_file, upload_row, lower_ext, receive,
}
use networkdisk.Uploads.Chunks.{
  load_own, check_chunks, merge_chunks, place_session, session_row, complete_upload,
}
use networkdisk.Uploads.Whole.{load-world, check-world}
use networkdisk.Uploads.Stored.{IsStored, place_session-IsStored, place_upload-IsStored}

-- The data that a session that is complete joins to, and what is stored.
pub record IsCompleted (i : Text) (u : ℕ) (v : Env) (w : World) (r : UploadResult) : Type 0 where
  pub dir : UploadDir
  pub content : Text
  pub loaded : (load_own i u v w).0 ≡ ok dir
  pub merged : (merge_chunks dir 0 dir.session.chunk_count v (tick w)).0 ≡ ok content
  pub stored :
      IsStored (session_row dir.session content v) content r (complete_upload i u v w).1.disk

module _ (i : Text) (u : ℕ) (v : Env) (w : World) (r : UploadResult) where
  abbrev joined : UploadDir → Result Text × World
  joined x = merge_chunks x 0 x.session.chunk_count v (tick w)

  abbrev looked : UploadDir → Text → Result (Option File) × World
  looked x content = find_by_hash (v.sha256_hex content) v (joined x).1

  abbrev ended : UploadDir → Text → Option File → Result UploadResult × World
  ended x content same =
      place_session same i (lower_ext x.session.name v) content (session_row x.session content v) v
        (looked x content).1

  -- Where a completion succeeds the chunks join to a content, the row has its hash and the size that was
  -- announced, and if the content is new it is on the disk under the row's key.
  pub complete_upload-IsCompleted : (complete_upload i u v w).0 ≡ ok r → IsCompleted i u v w r
  unfolding complete_upload
  complete_upload-IsCompleted h =
      let a = load-world i u v w in
      elim (Result-cases (load_own i u v w).0) [
        | inr (e, k) ↦ absurd (ground arith)
        | inl (x, k) ↦
            let b = check-world x 0 x.session.chunk_count v w in
            elim (Result-cases (check_chunks x 0 x.session.chunk_count v w).0) [
              | inr (e, m) ↦ absurd (ground arith)
              | inl (t, m) ↦ elim (Result-cases (joined x).0) [
                | inr (e, n) ↦ absurd (ground arith)
                | inl (content, n) ↦ elim (Result-cases (looked x content).0) [
                  | inr (e, q) ↦ absurd (ground arith)
                  | inl (same, q) ↦
                      let z : (complete_upload i u v w).1.disk ≡ (ended x content same).1.disk =
                        ground arith in
                      let y : (ended x content same).0 ≡ ok r = ground arith in
                      record {
                        dir = x;
                        content = content;
                        loaded = k;
                        merged = n;
                        stored = rw z (
                            place_session-IsStored i (lower_ext x.session.name v) content
                              (session_row x.session content v) r v (looked x content).1 same y);
                      }
                ]
              ]
            ]
      ]

leading_short : (m : ℕ) (t : Text) → length (leading m t) < m → leading m t ≡ t
leading_short m [] h = refl
leading_short zero (b ∷ t) h = absurd (omega (arith, h))
leading_short (suc m) (b ∷ t) h = ap (λ s. b ∷ s) (leading_short m t (ground (arith, h)))

module _ (body raw : Text) (u : ℕ) (v : Env) (w : World) (r : UploadResult) where
  abbrev content : Text
  content = leading (v.cfg.max_file_size + 1) body

  abbrev at_look : Option ℕ → World
  at_look none = tick (tick w)
  at_look (some p) = tick (tick (tick w))

  abbrev found : Option ℕ → Result (Option File) × World
  found parent = find_by_hash (v.sha256_hex content) v (at_look parent)

  abbrev placed : Option ℕ → Option File → Result UploadResult × World
  placed parent same =
      place_upload same (trim_space raw) (lower_ext (trim_space raw) v) content
        (upload_row u parent content v) v (found parent).1

  unfold_root :
      (upload_file body raw none u v w).0 ≡ ok r
      → (same : Option File) × (ltb v.cfg.max_file_size (length content) ≡ false)
        × ((placed none same).0 ≡ ok r)
        × ((placed none same).1.disk ≡ (upload_file body raw none u v w).1.disk)
  unfolding upload_file receive validate_extension
  unfold_root h = elim (Result-cases (found none).0) [
    | inr (e, q) ↦ absurd (ground arith)
    | inl (same, q) ↦ (same, ground arith, ground arith, ground arith)
  ]

  unfold_in :
      (p : ℕ) (g : File)
      → first (has_id p) w.db.files ≡ some g
      → (upload_file body raw (some p) u v w).0 ≡ ok r
      → (same : Option File) × (ltb v.cfg.max_file_size (length content) ≡ false)
        × ((placed (some p) same).0 ≡ ok r)
        × ((placed (some p) same).1.disk ≡ (upload_file body raw (some p) u v w).1.disk)
  unfolding upload_file receive validate_extension validate_parent_dir Files.file_by_id
  unfold_in p g f h = elim (Result-cases (found (some p)).0) [
    | inr (e, q) ↦ absurd (ground arith)
    | inl (same, q) ↦ (same, ground arith, ground arith, ground arith)
  ]

  unfold_absent :
      (p : ℕ)
      → first (has_id p) w.db.files ≡ none
      → (upload_file body raw (some p) u v w).0 ≡ ok r
      → ⊥
  unfolding upload_file validate_extension validate_parent_dir Files.file_by_id
  unfold_absent p f h = ground arith

  abbrev Stored : Option ℕ → Type 0
  Stored parent =
      (length body ≤ v.cfg.max_file_size)
      × IsStored (upload_row u parent body v) body r (upload_file body raw parent u v w).1.disk

  placed-Stored :
      (parent : Option ℕ) (same : Option File)
      → ltb v.cfg.max_file_size (length content) ≡ false
      → (placed parent same).0 ≡ ok r
      → (placed parent same).1.disk ≡ (upload_file body raw parent u v w).1.disk
      → Stored parent
  placed-Stored parent same small h d =
      let c : content ≡ body = leading_short (v.cfg.max_file_size + 1) body (ground arith) in
      let a =
        place_upload-IsStored (trim_space raw) (lower_ext (trim_space raw) v) content
          (upload_row u parent content v) r v (found parent).1 same h in
      let b : length content ≤ v.cfg.max_file_size = ground arith in
      (
        rw c at b,
        subst
            (λ z. IsStored (upload_row u parent z v) z r (upload_file body raw parent u v w).1.disk)
            c (rw d at a),
      )

  -- Where an upload succeeds, the size of the whole body is at most the configured one, the row has
  -- the size and the hash of the body, and if the content is new it is on the disk under the row's
  -- key.
  pub upload_file-IsStored :
      (parent : Option ℕ)
      → (upload_file body raw parent u v w).0 ≡ ok r
      → (length body ≤ v.cfg.max_file_size)
        × IsStored (upload_row u parent body v) body r (upload_file body raw parent u v w).1.disk
  upload_file-IsStored none h = let x = unfold_root h in placed-Stored none x.0 x.1 x.2 x.3
  upload_file-IsStored (some p) h = elim (Option-cases (first (has_id p) w.db.files)) [
    | inl f ↦ absurd (unfold_absent p f h)
    | inr (g, f) ↦ let x = unfold_in p g f h in placed-Stored (some p) x.0 x.1 x.2 x.3
  ]
