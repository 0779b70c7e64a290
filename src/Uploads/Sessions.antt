-- ===== src/Uploads/Sessions.antt =====
-- What the calls on sessions of uploads do to the directories of sessions.
use networkdisk.Prelude.{
  ℕ, zero, suc, ◌+◌, ◌≡◌, refl, ap, ◌∙◌, ◌⊎◌, inl, inr, not, Option, none, some, In-select, arith,
  Option-cases, Bool-cases, select,
}
use networkdisk.Text.{Text}
use networkdisk.Model.{File, Env, World, UploadDir}
use networkdisk.Exec.{Result, Result-cases, tick}
use networkdisk.Files.Guards.{OverwriteTarget, resolve_name_conflict}
use networkdisk.Uploads.{place_new, generate_storage_key, move_to_storage, find_by_hash, lower_ext}
use networkdisk.Uploads.Chunks.{
  is_upload, without_upload, load_own, check_chunks, merge_chunks, place_session,
  cleanup_upload_session, session_row, complete_upload, cancel_upload,
}
use networkdisk.Uploads.Whole.{load-world, check-world}
use networkdisk.Uploads.Frame.{
  Within, place_duplicate-uploads, place_new-uploads, resolve-uploads, key-uploads, move-uploads,
  find-uploads,
}

-- Either nothing is removed, or the session of the id.
abbrev Cleaned : Text → World → World → Type 0
Cleaned i w w' = (w'.uploads ≡ w.uploads) ⊎ (w'.uploads ≡ (without_upload i w).uploads)

Cleaned-Within : (i : Text) (w w' : World) → Cleaned i w w' → Within w w'
Cleaned-Within i w w' (inl e) x m = rw e at m
Cleaned-Within i w w' (inr e) x m = (In-select (λ x. not (is_upload i x)) w.uploads x (rw e at m)).0

module _ (i e content : Text) (f : File) (v : Env) (w : World) where
  abbrev choice : Result (Text × Option OverwriteTarget) × World
  choice = resolve_name_conflict f.name e f.parent_id f.user_id v (without_upload i w)

  abbrev keyed : Result Text × World
  keyed = generate_storage_key e v w

  abbrev moved : Text → Result (Unit {0}) × World
  moved key = move_to_storage key content v keyed.1

  place_session-Cleaned :
      (same : Option File) → Cleaned i w (place_session same i e content f v w).1
  unfolding place_session cleanup_upload_session
  place_session-Cleaned (some s) =
      let a = resolve-uploads f.name e f.parent_id f.user_id v (without_upload i w) in
      elim (Result-cases choice.0) [
        | inr (x, h) ↦ inr (ground arith)
        | inl ((m, old), h) ↦
            let b =
              place_duplicate-uploads none (record f { name = m; storage_key = s.storage_key }) v
                choice.1 in
            inr (ground arith)
      ]
  place_session-Cleaned none =
      let a = key-uploads e v w in
      elim (Result-cases keyed.0) [
        | inr (x, h) ↦ inl (ground arith)
        | inl (key, h) ↦
            let b = move-uploads key content v keyed.1 in
            elim (Result-cases (moved key).0) [
              | inr (x, k) ↦ inl (ground arith)
              | inl (x, k) ↦
                  let c =
                    place_new-uploads none (record f { storage_key = key }) v (moved key).1 key in
                  elim (Result-cases
                    (place_new key none (record f { storage_key = key }) v (moved key).1).0) [
                      | inr (x, q) ↦ inl (ground arith)
                      | inl (x, q) ↦ inr (ground arith)
                    ]
            ]
      ]

merge-uploads :
    (x : UploadDir) (k rounds : ℕ) (v : Env) (w : World)
    → (merge_chunks x k rounds v w).1.uploads ≡ w.uploads
unfolding merge_chunks
merge-uploads x k zero v w = refl
merge-uploads x k (suc rounds) v w = elim (Option-cases (x.chunks k)) [
  | inl q ↦ ground arith
  | inr (c, q) ↦ elim (Result-cases (merge_chunks x (k + 1) rounds v (tick w)).0) [
    | inl (t, r) ↦ ground (arith, merge-uploads x (k + 1) rounds v (tick w))
    | inr (t, r) ↦ ground (arith, merge-uploads x (k + 1) rounds v (tick w))
  ]
]

module _ (i : Text) (u : ℕ) (v : Env) (w : World) where
  abbrev merged : UploadDir → Result Text × World
  merged x = merge_chunks x 0 x.session.chunk_count v (tick w)

  abbrev looked : UploadDir → Text → Result (Option File) × World
  looked x content = find_by_hash (v.sha256_hex content) v (merged x).1

  abbrev joined : UploadDir → Text → Option File → World
  joined x content same =
      (place_session same i (lower_ext x.session.name v) content (session_row x.session content v) v
        (looked x content).1).1

  placed_Cleaned : (a b : World) → a.uploads ≡ w.uploads → Cleaned i a b → Cleaned i w b
  placed_Cleaned a b e (inl q) = inl (q ∙ e)
  placed_Cleaned a b e (inr q) = inr (q ∙ ap (select (λ x. not (is_upload i x))) e)

  pub complete-Within : Within w (complete_upload i u v w).1
  unfolding complete_upload
  complete-Within =
      let a = load-world i u v w in
      elim (Result-cases (load_own i u v w).0) [
        | inr (e, h) ↦ Cleaned-Within i w (complete_upload i u v w).1 (inl (ground arith))
        | inl (x, h) ↦
            let b = check-world x 0 x.session.chunk_count v w in
            elim (Result-cases (check_chunks x 0 x.session.chunk_count v w).0) [
              | inr (e, k) ↦ Cleaned-Within i w (complete_upload i u v w).1 (inl (ground arith))
              | inl (t, k) ↦
                  let c = merge-uploads x 0 x.session.chunk_count v (tick w) in
                  elim (Result-cases (merge_chunks x 0 x.session.chunk_count v (tick w)).0) [
                    | inr (e, m) ↦
                        Cleaned-Within i w (complete_upload i u v w).1 (inl (ground arith))
                    | inl (content, m) ↦
                        let d = find-uploads (v.sha256_hex content) v (merged x).1 in
                        elim (Result-cases (looked x content).0) [
                          | inr (e, q) ↦
                              Cleaned-Within i w (complete_upload i u v w).1 (inl (ground arith))
                          | inl (same, q) ↦ elim (Bool-cases (w.faults w.calls)) [
                            | inl z ↦
                                Cleaned-Within i w (complete_upload i u v w).1 (inl (ground arith))
                            | inr z ↦
                                let r : (complete_upload i u v w).1.uploads
                                    ≡ (joined x content same).uploads =
                                  ground arith in
                                let y : (looked x content).1.uploads ≡ w.uploads = ground arith in
                                let p =
                                  placed_Cleaned (looked x content).1 (joined x content same) y (
                                    place_session-Cleaned i (lower_ext x.session.name v) content
                                      (session_row x.session content v) v (looked x content).1
                                      same) in
                                λ g m. Cleaned-Within i w (joined x content same) p g (rw r at m)
                          ]
                        ]
                  ]
            ]
      ]

  pub cancel-Within : Within w (cancel_upload i u v w).1
  unfolding cancel_upload cleanup_upload_session
  cancel-Within =
      let a = load-world i u v w in
      elim (Result-cases (load_own i u v w).0) [
        | inr (e, h) ↦ Cleaned-Within i w (cancel_upload i u v w).1 (inl (ground arith))
        | inl (x, h) ↦ Cleaned-Within i w (cancel_upload i u v w).1 (inr (ground arith))
      ]
