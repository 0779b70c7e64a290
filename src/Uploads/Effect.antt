-- ===== src/Uploads/Effect.antt =====
-- What an upload does to the database, from the choice of a name on.
use networkdisk.Prelude.{
  ℕ, zero, suc, ◌+◌, ◌≡◌, refl, ◌∙◌, ◌⊎◌, inl, inr, Bool, true, Option, none, some, [], ◌∷◌, arith,
  Option-cases, first, first-some,
}
use networkdisk.Text.{Text, trim_suffix, numbered}
use networkdisk.Model.{File, Db, Env, World}
use networkdisk.Exec.{Result, Error, Exec, ok, err, Result-cases, tick, draw}
use networkdisk.Store.Sql.{has_name, parent_exists}
use networkdisk.Store.Files
use networkdisk.Steps.{OwnsAll}
use networkdisk.Steps.Sound.{IsSound}
use networkdisk.Files.Guards.{OverwriteTarget, resolve_name_conflict, free_name}
use networkdisk.Uploads.{
  place_upload, place_duplicate, place_new, generate_storage_key, move_to_storage,
}
use networkdisk.Uploads.Placed.{
  Outcome, retired, placed, place_duplicate-Outcome, place_new-Outcome,
}

module _ (exists : Text → Exec Bool) (v : Env)
    (same : (n : Text) (w : World) → (exists n v w).1.db ≡ w.db) where
  free_name_same :
      (base e : Text) (i rounds : ℕ) (w : World)
      → (free_name exists base e i rounds v w).1.db ≡ w.db
  unfolding free_name
  free_name_same base e i zero w = refl
  free_name_same base e i (suc rounds) w = ground (
    arith,
    free_name_same base e (i + 1) rounds (exists (numbered base i e) v w).1,
    same (numbered base i e) w,
  )

module _ (n e : Text) (parent : Option ℕ) (u : ℕ) (v : Env) (w : World) where
  abbrev pub resolved : Result (Text × Option OverwriteTarget) × World
  resolved = resolve_name_conflict n e parent u v w

  exists-db : (m : Text) (w : World) → (Files.file_name_exists parent u m v w).1.db ≡ w.db
  unfolding Files.file_name_exists
  exists-db m w = ground arith

  pub resolve-db : resolved.1.db ≡ w.db
  unfolding resolve_name_conflict Files.file_by_name Files.file_name_exists
  resolve-db = elim (Option-cases (first (has_name v parent u n) w.db.files)) [
    | inl f ↦ ground (
      arith,
      free_name_same (Files.file_name_exists parent u) v exists-db (trim_suffix n e) e 1 999
          (tick w),
    )
    | inr (x, f) ↦ ground (
      arith,
      free_name_same (Files.file_name_exists parent u) v exists-db (trim_suffix n e) e 1 999
          (tick w),
    )
  ]

  resolve_target :
      (m : Text) (t : OverwriteTarget)
      → resolved.0 ≡ ok (m, some t)
      → (f : File) × (first (has_name v parent u n) w.db.files ≡ some f) × (t.id ≡ f.id)
  unfolding resolve_name_conflict Files.file_by_name Files.file_name_exists
  resolve_target m t h = elim (Option-cases (first (has_name v parent u n) w.db.files)) [
    | inl f ↦ absurd (ground arith)
    | inr (x, f) ↦ (x, f, ground arith)
  ]

abbrev pub Replaces : Option OverwriteTarget → ℕ → Db → Type 0
Replaces none u d = Unit
Replaces (some t) u d = OwnsAll u (t.id ∷ []) d

-- The database is left, or a row of the owner is placed in the directory that was asked for, and at
-- most one row of the owner retired.
pub record Placement (u : ℕ) (parent : Option ℕ) (d d' : Db) : Type 0 where
  pub old : Option OverwriteTarget
  pub row : File
  pub now : ℕ
  pub user : row.user_id ≡ u
  pub place : row.parent_id ≡ parent
  pub mine : Replaces old u d
  pub there : parent_exists parent (retired old u now d) ≡ true
  pub after : d' ≡ placed old row now d

abbrev pub Uploaded : ℕ → Option ℕ → Db → Db → Type 0
Uploaded u parent d d' = (d' ≡ d) ⊎ Placement u parent d d'

target-Replaces :
    (n e : Text) (parent : Option ℕ) (u : ℕ) (v : Env) (w : World) (m : Text)
    (old : Option OverwriteTarget)
    → IsSound w.db
    → (resolved n e parent u v w).0 ≡ ok (m, old)
    → Replaces old u w.db
target-Replaces n e parent u v w m none s h = tt
target-Replaces n e parent u v w m (some t) s h =
    let r = resolve_target n e parent u v w m t h in
    let x = first-some (has_name v parent u n) w.db.files r.0 r.1 in
    λ g k i. let q : g ≡ r.0 = s.unique g r.0 k x.0 (ground arith) in rw q (ground arith)

-- The outcome of the transaction, from a state in which the database is still `d`.
pub Outcome-Uploaded :
    (old : Option OverwriteTarget) (f : File) (v : Env) (w : World) (d d' : Db)
    → w.db ≡ d
    → Replaces old f.user_id d
    → Outcome old f v w d'
    → Uploaded f.user_id f.parent_id d d'
Outcome-Uploaded old f v w d d' same mine (inl e) = inl (e ∙ same)
Outcome-Uploaded old f v w d d' same mine (inr (there, e)) = inr (record {
  old = old;
  row = f;
  now = w.now;
  user = refl;
  place = refl;
  mine = mine;
  there = rw same at there;
  after = rw same at e;
})

module _ (n e content : Text) (f : File) (v : Env) (w : World) where
  abbrev choice : Result (Text × Option OverwriteTarget) × World
  choice = resolved n e f.parent_id f.user_id v w

  -- A row whose data is on the disk.
  abbrev duplicate_of : Text → File → File
  duplicate_of m same = record f { name = m; storage_key = same.storage_key }

  choice_err :
      (same : Option File) (x : Error)
      → choice.0 ≡ err x
      → (place_upload same n e content f v w).1.db ≡ w.db
  unfolding place_upload
  choice_err none x h = ground (arith, resolve-db n e f.parent_id f.user_id v w)
  choice_err (some s) x h = ground (arith, resolve-db n e f.parent_id f.user_id v w)

  known :
      (s : File) (m : Text) (old : Option OverwriteTarget)
      → choice.0 ≡ ok (m, old)
      → (place_upload (some s) n e content f v w).1.db
        ≡ (place_duplicate old (duplicate_of m s) v choice.1).1.db
  unfolding place_upload
  known s m old h = elim (Result-cases (place_duplicate old (duplicate_of m s) v choice.1).0) [
    | inl (k, q) ↦ ground arith
    | inr (k, q) ↦ ground arith
  ]

  -- The states after the key has been drawn, and after the data has been moved.
  abbrev pub keyed : Result Text × World
  keyed = generate_storage_key e v choice.1

  abbrev pub moved : Text → Result (Unit {0}) × World
  moved key = move_to_storage key content v keyed.1

  abbrev new_of : Text → Text → File
  new_of m key = record f { name = m; storage_key = key }

  pub keyed-db : keyed.1.db ≡ choice.1.db
  unfolding generate_storage_key draw
  keyed-db = elim (Option-cases (choice.1.random choice.1.draws)) [
    | inl q ↦ ground arith
    | inr (t, q) ↦ ground arith
  ]

  pub moved-db : (key : Text) → (moved key).1.db ≡ keyed.1.db
  unfolding move_to_storage
  moved-db key = ground arith

  unknown_err :
      (m : Text) (old : Option OverwriteTarget) (x : Error)
      → choice.0 ≡ ok (m, old)
      → (keyed.0 ≡ err x) ⊎ ((key : Text) × (keyed.0 ≡ ok key) × ((moved key).0 ≡ err x))
      → (place_upload none n e content f v w).1.db ≡ w.db
  unfolding place_upload
  unknown_err m old x h (inl q) = ground (arith, keyed-db, resolve-db n e f.parent_id f.user_id v w)
  unknown_err m old x h (inr (key, q, r)) =
      ground (arith, keyed-db, moved-db key, resolve-db n e f.parent_id f.user_id v w)

  unknown :
      (m : Text) (old : Option OverwriteTarget) (key : Text)
      → choice.0 ≡ ok (m, old)
      → keyed.0 ≡ ok key
      → (moved key).0 ≡ ok tt
      → (place_upload none n e content f v w).1.db
        ≡ (place_new key old (new_of m key) v (moved key).1).1.db
  unfolding place_upload
  unknown m old key h q r =
      elim (Result-cases (place_new key old (new_of m key) v (moved key).1).0) [
        | inl (k, p) ↦ ground arith
        | inr (k, p) ↦ ground arith
      ]

  place_none :
      (m : Text) (old : Option OverwriteTarget)
      → Replaces old f.user_id w.db
      → choice.0 ≡ ok (m, old)
      → Uploaded f.user_id f.parent_id w.db (place_upload none n e content f v w).1.db
  place_none m old mine h = elim (Result-cases keyed.0) [
    | inr (x, q) ↦ inl (unknown_err m old x h (inl q))
    | inl (key, q) ↦ elim (Result-cases (moved key).0) [
      | inr (x, r) ↦ inl (unknown_err m old x h (inr (key, q, r)))
      | inl (k, r) ↦ rw (unknown m old key h q r) (
          Outcome-Uploaded old (new_of m key) v (moved key).1 w.db _
            (moved-db key ∙ keyed-db ∙ resolve-db n e f.parent_id f.user_id v w) mine
            (place_new-Outcome old (new_of m key) v (moved key).1 key))
    ]
  ]

  pub place_upload-Uploaded :
      (same : Option File)
      → IsSound w.db
      → Uploaded f.user_id f.parent_id w.db (place_upload same n e content f v w).1.db
  place_upload-Uploaded same s = elim (Result-cases choice.0) [
    | inr (x, h) ↦ inl (choice_err same x h)
    | inl ((m, old), h) ↦ go same m old h (target-Replaces n e f.parent_id f.user_id v w m old s h)
  ]
    where
      go :
          (same : Option File) (m : Text) (old : Option OverwriteTarget)
          → choice.0 ≡ ok (m, old)
          → Replaces old f.user_id w.db
          → Uploaded f.user_id f.parent_id w.db (place_upload same n e content f v w).1.db
      go none m old h mine = place_none m old mine h
      go (some x) m old h mine = rw (known x m old h) (
          Outcome-Uploaded old (duplicate_of m x) v choice.1 w.db _
            (resolve-db n e f.parent_id f.user_id v w) mine
            (place_duplicate-Outcome old (duplicate_of m x) v choice.1))
