-- ===== src/Uploads/Stored.antt =====
-- What an upload that succeeds leaves: its row has the hash and the size of the upload, and new data is
-- on the disk under the row's key.
use networkdisk.Prelude.{ℕ, ◌≡◌, refl, sym, inl, inr, true, false, Option, none, some, arith, first}
use networkdisk.Text.{Text, text_eq_refl}
use networkdisk.Model.{File, Env, World}
use networkdisk.Exec.{Result, ok, Result-cases, tick}
use networkdisk.Store.Tx
use networkdisk.Files.Guards.{OverwriteTarget, resolve_name_conflict}
use networkdisk.Uploads.{
  UploadResult, retire, place_duplicate, place_new, generate_storage_key, move_to_storage,
  place_upload,
}
use networkdisk.Uploads.Chunks.{place_session, cleanup_upload_session, without_upload}

-- What a row has of the row that was asked for.
pub record IsRowOf (f g : File) : Type 0 where
  pub hash : g.file_hash ≡ f.file_hash
  pub key : g.storage_key ≡ f.storage_key
  pub size : g.size ≡ f.size
  pub user : g.user_id ≡ f.user_id
  pub parent : g.parent_id ≡ f.parent_id

create_file-IsRowOf :
    (f g : File) (v : Env) (w : World) → (Tx.create_file f v w).0 ≡ ok g → IsRowOf f g
unfolding Tx.create_file Tx.file_by_id first
create_file-IsRowOf f g v w h = record {
  hash = ground arith;
  key = ground arith;
  size = ground arith;
  user = ground arith;
  parent = ground arith;
}

create_file-disk : (f : File) (v : Env) (w : World) → (Tx.create_file f v w).1.disk ≡ w.disk
unfolding Tx.create_file Tx.file_by_id first
create_file-disk f v w = ground arith

retire-disk :
    (old : Option OverwriteTarget) (u : ℕ) (v : Env) (w : World)
    → (retire old u v w).1.disk ≡ w.disk
unfolding retire Tx.batch_soft_delete Tx.update_user_storage_used
retire-disk none u v w = refl
retire-disk (some t) u v w = ground arith

module _ (old : Option OverwriteTarget) (f g : File) (v : Env) (w : World) where
  abbrev gone : Result (Unit {0}) × World
  gone = retire old f.user_id v (tick w)

  abbrev made : Result File × World
  made = Tx.create_file f v gone.1

  place_duplicate-IsRowOf : (place_duplicate old f v w).0 ≡ ok g → IsRowOf f g
  unfolding place_duplicate Tx.update_user_storage_used
  place_duplicate-IsRowOf h = elim (Result-cases gone.0) [
    | inr (e, q) ↦ absurd (ground arith)
    | inl (k, q) ↦ elim (Result-cases made.0) [
      | inr (e, r) ↦ absurd (ground arith)
      | inl (x, r) ↦ create_file-IsRowOf f g v gone.1 (let z : x ≡ g = ground arith in rw z at r)
    ]
  ]

  place_new-IsRowOf : (key : Text) → (place_new key old f v w).0 ≡ ok g → IsRowOf f g
  unfolding place_new Tx.update_user_storage_used
  place_new-IsRowOf key h = elim (Result-cases gone.0) [
    | inr (e, q) ↦ absurd (ground arith)
    | inl (k, q) ↦ elim (Result-cases made.0) [
      | inr (e, r) ↦ absurd (ground arith)
      | inl (x, r) ↦ create_file-IsRowOf f g v gone.1 (let z : x ≡ g = ground arith in rw z at r)
    ]
  ]

  place_new-disk :
      (key : Text) → (place_new key old f v w).0 ≡ ok g → (place_new key old f v w).1.disk ≡ w.disk
  unfolding place_new Tx.update_user_storage_used
  place_new-disk key h =
      let a = retire-disk old f.user_id v (tick w) in
      let b = create_file-disk f v gone.1 in
      elim (Result-cases gone.0) [
        | inr (e, q) ↦ absurd (ground arith)
        | inl (k, q) ↦ elim (Result-cases made.0) [
          | inr (e, r) ↦ absurd (ground arith)
          | inl (x, r) ↦ ground arith
        ]
      ]

moved-disk :
    (key content : Text) (v : Env) (w : World)
    → (move_to_storage key content v w).0 ≡ ok tt
    → (move_to_storage key content v w).1.disk key ≡ some content
unfolding move_to_storage
moved-disk key content v w h = ground (arith, text_eq_refl key)

-- What is known of a result of an upload of `content` by the row `f`.
pub record IsStored (f : File) (content : Text) (r : UploadResult) (disk : Text → Option Text)
    : Type 0 where
  pub hash : r.file.file_hash ≡ f.file_hash
  pub size : r.file.size ≡ f.size
  pub user : r.file.user_id ≡ f.user_id
  pub parent : r.file.parent_id ≡ f.parent_id
  pub backed : r.duplicate ≡ false → disk r.file.storage_key ≡ some content

module _ (i e content : Text) (f : File) (r : UploadResult) (v : Env) (w : World) where
  abbrev choice : World → Result (Text × Option OverwriteTarget) × World
  choice z = resolve_name_conflict f.name e f.parent_id f.user_id v z

  abbrev keyed : World → Result Text × World
  keyed z = generate_storage_key e v z

  abbrev moved : World → Text → Result (Unit {0}) × World
  moved z key = move_to_storage key content v (keyed z).1

  -- The end of a placement of new data, from the state in which the key is drawn.
  pub new-IsStored :
      (old : Option OverwriteTarget) (n key : Text) (g : File) (z : World)
      → (moved z key).0 ≡ ok tt
      → (place_new key old (record f { name = n; storage_key = key }) v (moved z key).1).0 ≡ ok g
      → IsStored f content
          (record { file = g; duplicate = false })
          (place_new key old (record f { name = n; storage_key = key }) v (moved z key).1).1.disk
  new-IsStored old n key g z h k =
      let a =
        place_new-IsRowOf old (record f { name = n; storage_key = key }) g v (moved z key).1 key
          k in
      let b =
        place_new-disk old (record f { name = n; storage_key = key }) g v (moved z key).1 key k in
      record {
        hash = a.hash;
        size = a.size;
        user = a.user;
        parent = a.parent;
        backed = λ q. rw (a.key, b) (moved-disk key content v (keyed z).1 h);
      }

  pub duplicate-IsStored :
      (old : Option OverwriteTarget) (n key : Text) (g : File) (z : World) (d : Text → Option Text)
      → (place_duplicate old (record f { name = n; storage_key = key }) v z).0 ≡ ok g
      → IsStored f content (record { file = g; duplicate = true }) d
  duplicate-IsStored old n key g z d h =
      let a = place_duplicate-IsRowOf old (record f { name = n; storage_key = key }) g v z h in
      record {
        hash = a.hash;
        size = a.size;
        user = a.user;
        parent = a.parent;
        backed = λ q. absurd (ground arith);
      }

  pub place_session-IsStored :
      (same : Option File)
      → (place_session same i e content f v w).0 ≡ ok r
      → IsStored f content r (place_session same i e content f v w).1.disk
  unfolding place_session cleanup_upload_session
  place_session-IsStored (some s) h = elim (Result-cases (choice (without_upload i w)).0) [
    | inr (x, q) ↦ absurd (ground arith)
    | inl ((n, old), q) ↦
        elim (Result-cases
          (place_duplicate none (record f { name = n; storage_key = s.storage_key }) v
            (choice (without_upload i w)).1).0) [
              | inr (x, m) ↦ absurd (ground arith)
              | inl (g, m) ↦
                  let a =
                    duplicate-IsStored none n s.storage_key g (choice (without_upload i w)).1
                      (place_session (some s) i e content f v w).1.disk m in
                  let z : record { file = g; duplicate = true } ≡ r = ground arith in rw (sym z) a
            ]
  ]
  place_session-IsStored none h = elim (Result-cases (keyed w).0) [
    | inr (x, q) ↦ absurd (ground arith)
    | inl (key, q) ↦ elim (Result-cases (moved w key).0) [
      | inr (x, k) ↦ absurd (ground arith)
      | inl (x, k) ↦
          elim (Result-cases
            (place_new key none (record f { storage_key = key }) v (moved w key).1).0) [
              | inr (x, m) ↦ absurd (ground arith)
              | inl (g, m) ↦
                  let a = new-IsStored none f.name key g w k m in
                  let z : record { file = g; duplicate = false } ≡ r = ground arith in
                  let d : (place_session none i e content f v w).1.disk
                      ≡ (place_new key none (record f { storage_key = key }) v
                          (moved w key).1).1.disk =
                    ground arith in
                  rw (sym z, d) a
            ]
    ]
  ]

module _ (n e content : Text) (f : File) (r : UploadResult) (v : Env) (w : World) where
  abbrev named : Result (Text × Option OverwriteTarget) × World
  named = resolve_name_conflict n e f.parent_id f.user_id v w

  place_known-IsStored :
      (s : File)
      → (place_upload (some s) n e content f v w).0 ≡ ok r
      → IsStored f content r (place_upload (some s) n e content f v w).1.disk
  unfolding place_upload
  place_known-IsStored s h = elim (Result-cases named.0) [
    | inr (x, q) ↦ absurd (ground arith)
    | inl ((m, old), q) ↦
        elim (Result-cases
          (place_duplicate old (record f { name = m; storage_key = s.storage_key }) v named.1).0) [
            | inr (x, k) ↦ absurd (ground arith)
            | inl (g, k) ↦
                let a =
                  duplicate-IsStored n e content f r v w old m s.storage_key g named.1
                    (place_upload (some s) n e content f v w).1.disk k in
                let z : record { file = g; duplicate = true } ≡ r = ground arith in rw (sym z) a
          ]
  ]

  place_unknown-IsStored :
      (place_upload none n e content f v w).0 ≡ ok r
      → IsStored f content r (place_upload none n e content f v w).1.disk
  unfolding place_upload
  place_unknown-IsStored h = elim (Result-cases named.0) [
    | inr (x, q) ↦ absurd (ground arith)
    | inl ((m, old), q) ↦ elim (Result-cases (generate_storage_key e v named.1).0) [
      | inr (x, k) ↦ absurd (ground arith)
      | inl (key, k) ↦ elim (Result-cases (moved n e content f r v w named.1 key).0) [
        | inr (x, l) ↦ absurd (ground arith)
        | inl (x, l) ↦
            elim (Result-cases
              (place_new key old (record f { name = m; storage_key = key }) v
                (moved n e content f r v w named.1 key).1).0) [
                  | inr (x, o) ↦ absurd (ground arith)
                  | inl (g, o) ↦
                      let a = new-IsStored n e content f r v w old m key g named.1 l o in
                      let z : record { file = g; duplicate = false } ≡ r = ground arith in
                      let d : (place_upload none n e content f v w).1.disk
                          ≡ (place_new key old (record f { name = m; storage_key = key }) v
                              (moved n e content f r v w named.1 key).1).1.disk =
                        ground arith in
                      rw (sym z, d) a
                ]
      ]
    ]
  ]

  pub place_upload-IsStored :
      (same : Option File)
      → (place_upload same n e content f v w).0 ≡ ok r
      → IsStored f content r (place_upload same n e content f v w).1.disk
  place_upload-IsStored (some s) h = place_known-IsStored s h
  place_upload-IsStored none h = place_unknown-IsStored h
