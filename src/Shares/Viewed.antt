-- ===== src/Shares/Viewed.antt =====
-- A download that succeeds is counted.
use networkdisk.Prelude.{
  ℕ, ◌≡◌, refl, inl, inr, true, false, [], ◌∷◌, In, arith, ◌==◌, Bool-cases, Option-cases, first,
  first-some, update, update-In,
}
use networkdisk.Text.{Text}
use networkdisk.Model.{File, Share, Env, World}
use networkdisk.Exec.{ok, Result-cases}
use networkdisk.Store.Sql.{has_id, is_empty}
use networkdisk.Store.Files.{file_by_id}
use networkdisk.Store.Shares as Table
use networkdisk.Shares as Shares
use networkdisk.Shares.{get_share_by_token, validate_verify_token}
use networkdisk.Shares.Downloads.{counted, share_row, get_share-db, get_share-row}

module _ (t : Text) (v : Env) (w : World) where
  get_share_ok :
      (s : Share) (f : File)
      → (get_share_by_token t v w).0 ≡ ok (s, f)
      → (Shares.is_exhausted s ≡ false) × (f.is_deleted ≡ false)
  unfolding get_share_by_token Table.share_by_token file_by_id
  get_share_ok s f h = elim (Option-cases (share_row t v w)) [
    | inl e ↦ absurd (ground arith)
    | inr (x, e) ↦ elim (Option-cases (first (has_id x.file_id) w.db.files)) [
      | inl g ↦ absurd (ground arith)
      | inr (y, g) ↦ (ground arith, ground arith)
    ]
  ]

  abbrev at_count : World
  at_count = (get_share_by_token t v w).1

  download_ok :
      (s : Share) (f : File)
      → (Shares.download_shared_file t v w).0 ≡ ok (f, s)
      → ((get_share_by_token t v w).0 ≡ ok (s, f))
        × (is_empty s.password_hash ≡ true)
        × ((counted s.id s.max_downloads v at_count).0 ≡ ok tt)
        × ((Shares.download_shared_file t v w).1.db
            ≡ (counted s.id s.max_downloads v at_count).1.db)
  unfolding Shares.download_shared_file
  download_ok s f h = elim (Result-cases (get_share_by_token t v w).0) [
    | inr (e, g) ↦ absurd (ground arith)
    | inl ((s', f'), g) ↦ elim (Result-cases (counted s'.id s'.max_downloads v at_count).0) [
      | inr (e, k) ↦ absurd (ground arith)
      | inl (u, k) ↦
          let same_share : s' ≡ s = ground arith in
          let same_file : f' ≡ f = ground arith in
          (ground arith, ground arith, ground arith, ground arith)
    ]
  ]

increment_viewed :
    (i : ℕ) (v : Env) (w : World) (s : Share)
    → In s w.db.shares
    → s.id ≡ i
    → Shares.is_exhausted s ≡ false
    → (counted i s.max_downloads v w).0 ≡ ok tt
    → In (Table.viewed s) (counted i s.max_downloads v w).1.db.shares
unfolding Table.increment_share_view_count_if_under_max Table.increment_share_view_count
increment_viewed i v w s m e x h = elim (Bool-cases (s.max_downloads == 0)) [
  | inl z ↦
      let c : (counted i s.max_downloads v w).1.db.shares
          ≡ update (λ (s : Share). s.id == i) Table.viewed w.db.shares =
        ground arith in
      let y : (s.id == i) ≡ true = ground arith in
      let k = update-In (λ (s : Share). s.id == i) Table.viewed w.db.shares s m in rw c (rw y at k)
  | inr z ↦
      let c : (counted i s.max_downloads v w).1.db.shares
          ≡ update (Table.under i s.max_downloads) Table.viewed w.db.shares =
        ground arith in
      let y : Table.under i s.max_downloads s ≡ true = ground arith in
      let k = update-In (Table.under i s.max_downloads) Table.viewed w.db.shares s m in
      rw c (rw y at k)
]

-- A download without a password that succeeds is of a share in the table whose bound has not been
-- reached, of a file that is not deleted, and afterwards the table has the share with a count that is
-- one higher.
pub download_shared_file-viewed :
    (t : Text) (v : Env) (w : World) (s : Share) (f : File)
    → (Shares.download_shared_file t v w).0 ≡ ok (f, s)
    → In s w.db.shares
      × (Shares.is_exhausted s ≡ false)
      × (s.password_hash ≡ [])
      × (f.is_deleted ≡ false)
      × In (Table.viewed s) (Shares.download_shared_file t v w).1.db.shares
download_shared_file-viewed t v w s f h =
    let o = download_ok t v w s f h in
    let g = get_share_ok t v w s f o.0 in
    let d = get_share-db t v w in
    let m =
      first-some (λ (s : Share). v.same_text s.token t) w.db.shares s
        (get_share-row t v w s f o.0) in
    let k = increment_viewed s.id v (at_count t v w) s (rw d m.0) refl g.0 o.2 in
    (m.0, g.0, nil_of_empty s.password_hash o.1, g.1, rw o.3 k)
  where
    nil_of_empty : (x : Text) → is_empty x ≡ true → x ≡ []
    nil_of_empty [] h = refl
    nil_of_empty (b ∷ x) h = ground arith
