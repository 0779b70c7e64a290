-- ===== src/Shares/Downloads.antt =====
-- What a download does to the table of shares.
use mathlib.Core.Path.{subst}
use networkdisk.Prelude.{
  ℕ, ◌≡◌, refl, ap, ◌⊎◌, inl, inr, Option, none, some, In, arith, ◌==◌, Option-cases, first,
  first-some,
}
use networkdisk.Prelude.Int.{pos, negsuc}
use networkdisk.Numbers.{parse_int}
use networkdisk.Text.{Text}
use networkdisk.Model.{File, Share, Db, Env, World}
use networkdisk.Exec.{Result, Error, ok, err, Result-cases, tick}
use networkdisk.Store.Sql.{has_id}
use networkdisk.Store.Files.{file_by_id}
use networkdisk.Store.Shares as Table
use networkdisk.Shares as Shares
use networkdisk.Shares.{get_share_by_token, validate_verify_token}
use networkdisk.Shares.Bound.{IsBounded, ShareChange, same, count}

pub unchanged : {d d' : Db} → d' ≡ d → ShareChange d d'
unchanged e = same (ap (λ (d : Db). d.shares) e) (ap (λ (d : Db). d.last_share) e)

module _ (i max : ℕ) (v : Env) (w : World) where
  abbrev pub counted : Result (Unit {0}) × World
  counted = Table.increment_share_view_count_if_under_max i max v w

  increment_cases :
      (counted.1.db ≡ w.db)
      ⊎ (((max ≡ 0) × (counted.1.db ≡ Table.count_view (λ s. s.id == i) w.db))
          ⊎ (counted.1.db ≡ Table.count_view (Table.under i max) w.db))
  unfolding Table.increment_share_view_count_if_under_max Table.increment_share_view_count
  increment_cases = ground arith

  -- The UPDATE is told the bound that the row has.
  increment-ShareChange :
      (s : Share)
      → IsBounded w.db
      → In s w.db.shares
      → s.id ≡ i
      → s.max_downloads ≡ max
      → ShareChange w.db counted.1.db
  increment-ShareChange s b m e k = elim increment_cases [
    | inl q ↦ unchanged q
    | inr (inl (z, q)) ↦
        count (λ s. s.id == i)
          (λ t n p h.
            let o : t ≡ s = b.unique t s n m (ground arith) in
            let l = ap (λ (z : Share). z.max_downloads) o in absurd (omega (arith, l, h, z, k)))
          q
    | inr (inr q) ↦
        count (Table.under i max)
          (λ t n p h.
            let o : t ≡ s = b.unique t s n m (ground arith) in
            let l = ap (λ (z : Share). z.max_downloads) o in ground arith)
          q
  ]

module _ (t : Text) (v : Env) (w : World) where
  abbrev pub share_row : Option Share
  share_row = first (λ s. v.same_text s.token t) w.db.shares

  pub get_share-db : (get_share_by_token t v w).1.db ≡ w.db
  unfolding get_share_by_token Table.share_by_token file_by_id
  get_share-db = elim (Option-cases share_row) [
    | inl f ↦ ground arith
    | inr (s, f) ↦ elim (Option-cases (first (has_id s.file_id) w.db.files)) [
      | inl g ↦ ground arith
      | inr (x, g) ↦ ground arith
    ]
  ]

  pub get_share-row :
      (s : Share) (f : File) → (get_share_by_token t v w).0 ≡ ok (s, f) → share_row ≡ some s
  unfolding get_share_by_token Table.share_by_token file_by_id
  get_share-row s f h = elim (Option-cases share_row) [
    | inl e ↦ ground arith
    | inr (x, e) ↦ elim (Option-cases (first (has_id x.file_id) w.db.files)) [
      | inl g ↦ ground arith
      | inr (y, g) ↦ ground arith
    ]
  ]

  download_refused :
      (e : Error)
      → (get_share_by_token t v w).0 ≡ err e
      → (Shares.download_shared_file t v w).1.db ≡ w.db
  unfolding Shares.download_shared_file
  download_refused e h = ground (arith, get_share-db)

  download_cases :
      (s : Share) (f : File)
      → (get_share_by_token t v w).0 ≡ ok (s, f)
      → ((Shares.download_shared_file t v w).1.db ≡ w.db)
        ⊎ ((Shares.download_shared_file t v w).1.db
            ≡ (counted s.id s.max_downloads v (get_share_by_token t v w).1).1.db)
  unfolding Shares.download_shared_file
  download_cases s f h =
      elim (Result-cases (counted s.id s.max_downloads v (get_share_by_token t v w).1).0) [
        | inl (k, e) ↦ ground (arith, get_share-db)
        | inr (k, e) ↦ ground (arith, get_share-db)
      ]

  pub download-ShareChange :
      IsBounded w.db → ShareChange w.db (Shares.download_shared_file t v w).1.db
  download-ShareChange b = elim (Result-cases (get_share_by_token t v w).0) [
    | inr (e, h) ↦ unchanged (download_refused e h)
    | inl ((s, f), h) ↦ elim (download_cases s f h) [
      | inl e ↦ unchanged e
      | inr e ↦
          let m =
            first-some (λ (s : Share). v.same_text s.token t) w.db.shares s (get_share-row s f h) in
          let d = get_share-db in
          rw e (
            subst
              (λ d.
                ShareChange d (counted s.id s.max_downloads v (get_share_by_token t v w).1).1.db)
              d
              (increment-ShareChange s.id s.max_downloads v (get_share_by_token t v w).1 s (rw d b)
                (rw d m.0) refl refl))
    ]
  ]

  parts-world : (o : Option (Text × Text × Text)) → (Shares.check_parts t o v w).1 ≡ w
  unfolding Shares.check_parts
  parts-world none = refl
  parts-world (some (a, b, c)) = elim (Option-cases (parse_int a)) [
    | inl e ↦ ground arith
    | inr (pos n, e) ↦ ground arith
    | inr (negsuc n, e) ↦ ground arith
  ]

  validate-world : (signed : Text) → (validate_verify_token t signed v w).1 ≡ w
  unfolding validate_verify_token
  validate-world signed = elim (Option-cases (v.base64_decode signed)) [
    | inl e ↦ rw e refl
    | inr (s, e) ↦ rw e (parts-world (Shares.split_three s))
  ]

  verified_refused :
      (signed : Text) (e : Error)
      → (validate_verify_token t signed v w).0 ≡ err e
      → (Shares.download_with_verify_token t signed v w).1.db ≡ w.db
  unfolding Shares.download_with_verify_token
  verified_refused signed e h = let k = validate-world signed in ground arith

  verified_absent :
      (signed : Text)
      → share_row ≡ none
      → (Shares.download_with_verify_token t signed v w).1.db ≡ w.db
  unfolding Shares.download_with_verify_token Table.share_by_token
  verified_absent signed f =
      let k = validate-world signed in
      elim (Result-cases (validate_verify_token t signed v w).0) [
        | inl (u, h) ↦ ground arith
        | inr (e, h) ↦ ground arith
      ]

  verified_cases :
      (signed : Text) (s : Share)
      → share_row ≡ some s
      → (validate_verify_token t signed v w).0 ≡ ok tt
      → ((Shares.download_with_verify_token t signed v w).1.db ≡ w.db)
        ⊎ ((Shares.download_with_verify_token t signed v w).1.db
            ≡ (counted s.id s.max_downloads v (tick w)).1.db)
  unfolding Shares.download_with_verify_token Table.share_by_token file_by_id
  verified_cases signed s f h =
      let k = validate-world signed in
      elim (Result-cases (counted s.id s.max_downloads v (tick w)).0) [
        | inl (u, e) ↦
            elim (Option-cases
              (first (has_id s.file_id) (counted s.id s.max_downloads v (tick w)).1.db.files)) [
                | inl g ↦ ground arith
                | inr (x, g) ↦ ground arith
              ]
        | inr (u, e) ↦ ground arith
      ]

  pub verified-ShareChange :
      (signed : Text)
      → IsBounded w.db
      → ShareChange w.db (Shares.download_with_verify_token t signed v w).1.db
  verified-ShareChange signed b = elim (Result-cases (validate_verify_token t signed v w).0) [
    | inr (e, h) ↦ unchanged (verified_refused signed e h)
    | inl (u, h) ↦ elim (Option-cases share_row) [
      | inl f ↦ unchanged (verified_absent signed f)
      | inr (s, f) ↦
          let m = first-some (λ (s : Share). v.same_text s.token t) w.db.shares s f in
          elim (verified_cases signed s f h) [
            | inl e ↦ unchanged e
            | inr e ↦ rw e (increment-ShareChange s.id s.max_downloads v (tick w) s b m.0 refl refl)
          ]
    ]
  ]
