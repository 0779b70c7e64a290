-- ===== src/Uploads/Joined.antt =====
-- What the last part of `CompleteUpload` does to the database.
use networkdisk.Prelude.{◌≡◌, ◌∙◌, ◌⊎◌, inl, inr, Option, none, some, arith, Option-cases}
use networkdisk.Text.{Text}
use networkdisk.Model.{File, Env, World}
use networkdisk.Exec.{Result, Error, ok, err, Result-cases, draw}
use networkdisk.Files.Guards.{OverwriteTarget}
use networkdisk.Uploads.{place_duplicate, place_new, generate_storage_key, move_to_storage}
use networkdisk.Uploads.Placed.{place_duplicate-Outcome, place_new-Outcome}
use networkdisk.Uploads.Effect.{Uploaded, Outcome-Uploaded, resolved, resolve-db}
use networkdisk.Uploads.Chunks.{without_upload, place_session, cleanup_upload_session}

module _ (i e content : Text) (f : File) (v : Env) (w : World) where
  abbrev choice : Result (Text × Option OverwriteTarget) × World
  choice = resolved f.name e f.parent_id f.user_id v (without_upload i w)

  abbrev duplicate_of : Text → File → File
  duplicate_of m same = record f { name = m; storage_key = same.storage_key }

  choice_err :
      (s : File) (x : Error)
      → choice.0 ≡ err x
      → (place_session (some s) i e content f v w).1.db ≡ w.db
  unfolding place_session cleanup_upload_session
  choice_err s x h =
      ground (arith, resolve-db f.name e f.parent_id f.user_id v (without_upload i w))

  known :
      (s : File) (m : Text) (old : Option OverwriteTarget)
      → choice.0 ≡ ok (m, old)
      → (place_session (some s) i e content f v w).1.db
        ≡ (place_duplicate none (duplicate_of m s) v choice.1).1.db
  unfolding place_session cleanup_upload_session
  known s m old h = elim (Result-cases (place_duplicate none (duplicate_of m s) v choice.1).0) [
    | inl (k, q) ↦ ground arith
    | inr (k, q) ↦ ground arith
  ]

  abbrev keyed : Result Text × World
  keyed = generate_storage_key e v w

  abbrev moved : Text → Result (Unit {0}) × World
  moved key = move_to_storage key content v keyed.1

  abbrev new_of : Text → File
  new_of key = record f { storage_key = key }

  key_same : keyed.1.db ≡ w.db
  unfolding generate_storage_key draw
  key_same = elim (Option-cases (w.random w.draws)) [
    | inl q ↦ ground arith
    | inr (t, q) ↦ ground arith
  ]

  move_same : (key : Text) → (moved key).1.db ≡ keyed.1.db
  unfolding move_to_storage
  move_same key = ground arith

  unknown_err :
      (x : Error)
      → (keyed.0 ≡ err x) ⊎ ((key : Text) × (keyed.0 ≡ ok key) × ((moved key).0 ≡ err x))
      → (place_session none i e content f v w).1.db ≡ w.db
  unfolding place_session
  unknown_err x (inl q) = ground (arith, key_same)
  unknown_err x (inr (key, q, r)) = ground (arith, key_same, move_same key)

  unknown :
      (key : Text)
      → keyed.0 ≡ ok key
      → (moved key).0 ≡ ok tt
      → (place_session none i e content f v w).1.db
        ≡ (place_new key none (new_of key) v (moved key).1).1.db
  unfolding place_session cleanup_upload_session
  unknown key q r = elim (Result-cases (place_new key none (new_of key) v (moved key).1).0) [
    | inl (k, p) ↦ ground arith
    | inr (k, p) ↦ ground arith
  ]

  pub place_session-Uploaded :
      (same : Option File)
      → Uploaded f.user_id f.parent_id w.db (place_session same i e content f v w).1.db
  place_session-Uploaded (some s) = elim (Result-cases choice.0) [
    | inr (x, h) ↦ inl (choice_err s x h)
    | inl ((m, old), h) ↦ rw (known s m old h) (
        Outcome-Uploaded none (duplicate_of m s) v choice.1 w.db _
          (resolve-db f.name e f.parent_id f.user_id v (without_upload i w)) tt
          (place_duplicate-Outcome none (duplicate_of m s) v choice.1))
  ]
  place_session-Uploaded none = elim (Result-cases keyed.0) [
    | inr (x, q) ↦ inl (unknown_err x (inl q))
    | inl (key, q) ↦ elim (Result-cases (moved key).0) [
      | inr (x, r) ↦ inl (unknown_err x (inr (key, q, r)))
      | inl (k, r) ↦ rw (unknown key q r) (
          Outcome-Uploaded none (new_of key) v (moved key).1 w.db _ (move_same key ∙ key_same) tt
            (place_new-Outcome none (new_of key) v (moved key).1 key))
    ]
  ]
