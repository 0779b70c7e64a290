-- ===== src/Uploads/Frame.antt =====
-- The directories of sessions: only the calls on them change them.
use networkdisk.Prelude.{
  ℕ, zero, suc, ◌+◌, ◌≡◌, refl, ◌∙◌, ◌⊎◌, inl, inr, Bool, Option, none, some, List, In, arith,
  Option-cases, first,
}
use networkdisk.Text.{Text, trim_suffix, trim_space, numbered, leading}
use networkdisk.Model.{File, Env, World, UploadDir}
use networkdisk.Exec.{Result, Exec, Result-cases, tick, draw}
use networkdisk.Store.Sql.{has_id, has_name}
use networkdisk.Store.Files
use networkdisk.Store.Tx
use networkdisk.Files.Guards.{
  OverwriteTarget, resolve_name_conflict, free_name, validate_parent_dir, validate_extension,
}
use networkdisk.Uploads.{
  retire, place_duplicate, place_new, generate_storage_key, move_to_storage, place_upload,
  find_by_hash, upload_file, upload_row, lower_ext, receive,
}

-- The sessions after are sessions before.
abbrev pub Within : World → World → Type 0
Within w w' = (x : UploadDir) → In x w'.uploads → In x w.uploads

retire-uploads :
    (old : Option OverwriteTarget) (u : ℕ) (v : Env) (w : World)
    → (retire old u v w).1.uploads ≡ w.uploads
unfolding retire Tx.batch_soft_delete Tx.update_user_storage_used
retire-uploads none u v w = refl
retire-uploads (some t) u v w = ground arith

module _ (old : Option OverwriteTarget) (f : File) (v : Env) (w : World) where
  pub place_duplicate-uploads : (place_duplicate old f v w).1.uploads ≡ w.uploads
  unfolding place_duplicate Tx.create_file Tx.file_by_id Tx.update_user_storage_used
  place_duplicate-uploads = elim (Result-cases (retire old f.user_id v (tick w)).0) [
    | inr (e, h) ↦ ground (arith, retire-uploads old f.user_id v (tick w))
    | inl (k, h) ↦ ground (arith, retire-uploads old f.user_id v (tick w))
  ]

  pub place_new-uploads : (key : Text) → (place_new key old f v w).1.uploads ≡ w.uploads
  unfolding place_new Tx.create_file Tx.file_by_id Tx.update_user_storage_used
  place_new-uploads key = elim (Result-cases (retire old f.user_id v (tick w)).0) [
    | inr (e, h) ↦ ground (arith, retire-uploads old f.user_id v (tick w))
    | inl (k, h) ↦ ground (arith, retire-uploads old f.user_id v (tick w))
  ]

module _ (exists : Text → Exec Bool) (v : Env)
    (same : (n : Text) (w : World) → (exists n v w).1.uploads ≡ w.uploads) where
  free_name-uploads :
      (base e : Text) (i rounds : ℕ) (w : World)
      → (free_name exists base e i rounds v w).1.uploads ≡ w.uploads
  unfolding free_name
  free_name-uploads base e i zero w = refl
  free_name-uploads base e i (suc rounds) w = ground (
    arith,
    free_name-uploads base e (i + 1) rounds (exists (numbered base i e) v w).1,
    same (numbered base i e) w,
  )

module _ (n e : Text) (parent : Option ℕ) (u : ℕ) (v : Env) (w : World) where
  exists-uploads :
      (m : Text) (w : World) → (Files.file_name_exists parent u m v w).1.uploads ≡ w.uploads
  unfolding Files.file_name_exists
  exists-uploads m w = ground arith

  pub resolve-uploads : (resolve_name_conflict n e parent u v w).1.uploads ≡ w.uploads
  unfolding resolve_name_conflict Files.file_by_name Files.file_name_exists
  resolve-uploads = elim (Option-cases (first (has_name v parent u n) w.db.files)) [
    | inl f ↦ ground (
      arith,
      free_name-uploads (Files.file_name_exists parent u) v exists-uploads (trim_suffix n e) e 1 999
          (tick w),
    )
    | inr (x, f) ↦ ground (
      arith,
      free_name-uploads (Files.file_name_exists parent u) v exists-uploads (trim_suffix n e) e 1 999
          (tick w),
    )
  ]

pub key-uploads :
    (e : Text) (v : Env) (w : World) → (generate_storage_key e v w).1.uploads ≡ w.uploads
unfolding generate_storage_key draw
key-uploads e v w = elim (Option-cases (w.random w.draws)) [
  | inl q ↦ ground arith
  | inr (t, q) ↦ ground arith
]

pub move-uploads :
    (key content : Text) (v : Env) (w : World)
    → (move_to_storage key content v w).1.uploads ≡ w.uploads
unfolding move_to_storage
move-uploads key content v w = ground arith

module _ (n e content : Text) (f : File) (v : Env) (w : World) where
  abbrev choice : Result (Text × Option OverwriteTarget) × World
  choice = resolve_name_conflict n e f.parent_id f.user_id v w

  abbrev keyed : Result Text × World
  keyed = generate_storage_key e v choice.1

  abbrev moved : Text → Result (Unit {0}) × World
  moved key = move_to_storage key content v keyed.1

  place_known-uploads : (s : File) → (place_upload (some s) n e content f v w).1.uploads ≡ w.uploads
  unfolding place_upload
  place_known-uploads s = elim (Result-cases choice.0) [
    | inr (x, h) ↦ ground (arith, resolve-uploads n e f.parent_id f.user_id v w)
    | inl ((m, old), h) ↦ ground (
      arith,
      resolve-uploads n e f.parent_id f.user_id v w,
      place_duplicate-uploads old (record f { name = m; storage_key = s.storage_key }) v choice.1,
    )
  ]

  place_unknown-uploads : (place_upload none n e content f v w).1.uploads ≡ w.uploads
  unfolding place_upload
  place_unknown-uploads =
      let a = resolve-uploads n e f.parent_id f.user_id v w in
      let b = key-uploads e v choice.1 in
      elim (Result-cases choice.0) [
        | inr (x, h) ↦ ground arith
        | inl ((m, old), h) ↦ elim (Result-cases keyed.0) [
          | inr (x, k) ↦ ground arith
          | inl (key, k) ↦
              let c = move-uploads key content v keyed.1 in
              elim (Result-cases (moved key).0) [
                | inr (x, q) ↦ ground arith
                | inl (x, q) ↦
                    let d =
                      place_new-uploads old (record f { name = m; storage_key = key }) v
                        (moved key).1 key in
                    ground arith
              ]
        ]
      ]

  place_upload-uploads :
      (same : Option File) → (place_upload same n e content f v w).1.uploads ≡ w.uploads
  place_upload-uploads none = place_unknown-uploads
  place_upload-uploads (some s) = place_known-uploads s

pub find-uploads : (h : Text) (v : Env) (w : World) → (find_by_hash h v w).1.uploads ≡ w.uploads
unfolding find_by_hash Files.file_by_hash
find-uploads h v w = ground arith

module _ (body raw : Text) (u : ℕ) (v : Env) (w : World) where
  abbrev content : Text
  content = leading (v.cfg.max_file_size + 1) body

  abbrev at_look : Option ℕ → World
  at_look none = tick (tick w)
  at_look (some p) = tick (tick (tick w))

  abbrev found : Option ℕ → Result (Option File) × World
  found parent = find_by_hash (v.sha256_hex content) v (at_look parent)

  abbrev placed : Option ℕ → Option File → List UploadDir
  placed parent same =
      (place_upload same (trim_space raw) (lower_ext (trim_space raw) v) content
        (upload_row u parent content v) v (found parent).1).1.uploads

  placed-uploads :
      (parent : Option ℕ) (same : Option File) → placed parent same ≡ (at_look parent).uploads
  placed-uploads parent same =
      place_upload-uploads (trim_space raw) (lower_ext (trim_space raw) v) content
        (upload_row u parent content v) v (found parent).1 same
      ∙ find-uploads (v.sha256_hex content) v (at_look parent)

  upload_in-uploads :
      (p : ℕ)
      → (first (has_id p) w.db.files ≡ none) ⊎ ((g : File) × (first (has_id p) w.db.files ≡ some g))
      → (upload_file body raw (some p) u v w).1.uploads ≡ w.uploads
  unfolding upload_file receive validate_extension validate_parent_dir Files.file_by_id
  upload_in-uploads p (inl f) = ground arith
  upload_in-uploads p (inr (g, f)) =
      let k = find-uploads (v.sha256_hex content) v (at_look (some p)) in
      elim (Result-cases (found (some p)).0) [
        | inr (e, h) ↦ ground arith
        | inl (same, h) ↦ let q = placed-uploads (some p) same in ground arith
      ]

  upload_root-uploads : (upload_file body raw none u v w).1.uploads ≡ w.uploads
  unfolding upload_file receive validate_extension
  upload_root-uploads =
      let k = find-uploads (v.sha256_hex content) v (at_look none) in
      elim (Result-cases (found none).0) [
        | inr (e, h) ↦ ground arith
        | inl (same, h) ↦ let q = placed-uploads none same in ground arith
      ]

  pub upload_file-uploads :
      (parent : Option ℕ) → (upload_file body raw parent u v w).1.uploads ≡ w.uploads
  upload_file-uploads none = upload_root-uploads
  upload_file-uploads (some p) = upload_in-uploads p (Option-cases (first (has_id p) w.db.files))
