-- ===== src/Shares/Requests.antt =====
-- The calls of `ShareService` that write to `shares`, in any sequence.
use networkdisk.Prelude.{
  ℕ, ◌+◌, ◌≡◌, ◌⊎◌, inl, inr, Option, none, some, List, [], ◌∷◌, arith, ◌==◌, Option-cases, first,
}
use networkdisk.Text.{Text}
use networkdisk.Model.{File, Share, Env, World}
use networkdisk.Exec.{Result, draw}
use networkdisk.Store.Sql.{has_id}
use networkdisk.Store.Files.{file_by_id}
use networkdisk.Store.Shares as Table
use networkdisk.Shares as Shares
use networkdisk.Shares.{get_share_by_token, validate_verify_token}
use networkdisk.Shares.Downloads.{unchanged, download-ShareChange, verified-ShareChange}
use networkdisk.Shares.Bound.{IsBounded, ShareChange, add, drop, ShareChange-IsBounded}

module _ (i owner : ℕ) (v : Env) (w : World) where
  delete_cases :
      ((Shares.delete_share i owner v w).1.db ≡ w.db)
      ⊎ ((Shares.delete_share i owner v w).1.db ≡ Table.drop_share i w.db)
  unfolding Shares.delete_share Table.share_by_id Table.delete_share
  delete_cases = elim (Option-cases (first (λ (s : Share). s.id == i) w.db.shares)) [
    | inl f ↦ ground arith
    | inr (s, f) ↦ ground arith
  ]

  delete-ShareChange : ShareChange w.db (Shares.delete_share i owner v w).1.db
  delete-ShareChange = elim delete_cases [ inl e ↦ unchanged e | inr e ↦ drop i e ]

insert_cases :
    (token : Text) (f owner : ℕ) (hash : Text) (expire : Option ℕ) (max : ℕ) (v : Env) (w : World)
    → ((Table.create_share token f owner hash expire max v w).1.db ≡ w.db)
      ⊎ ((Table.create_share token f owner hash expire max v w).1.db
          ≡ Table.add_share token f owner hash expire max w.db)
unfolding Table.create_share Table.share_by_id
insert_cases token f owner hash expire max v w = ground arith

insert-ShareChange :
    (token : Text) (f owner : ℕ) (hash : Text) (expire : Option ℕ) (max : ℕ) (v : Env) (w : World)
    → ShareChange w.db (Table.create_share token f owner hash expire max v w).1.db
insert-ShareChange token f owner hash expire max v w =
    elim (insert_cases token f owner hash expire max v w) [
      | inl e ↦ unchanged e
      | inr e ↦ add token f owner hash expire max e
    ]

module _ (i owner : ℕ) (expire : Option ℕ) (max : ℕ) (v : Env) (w : World) where
  -- The state in which the row is inserted.
  abbrev at_insert : World
  at_insert = record w { calls = w.calls + 1; draws = w.draws + 1 }

  abbrev inserted : Text → Text → Result Share × World
  inserted token hash =
      Table.create_share token i owner hash (Shares.expiry expire v.cfg.default_share_expire w.now)
        max v at_insert

  create_stopped :
      (password : Text)
      → (first (has_id i) w.db.files ≡ none) ⊎ (w.random w.draws ≡ none)
      → (Shares.create_share i owner password expire max v w).1.db ≡ w.db
  unfolding Shares.create_share file_by_id draw
  create_stopped password (inl f) = ground arith
  create_stopped password (inr q) = elim (Option-cases (first (has_id i) w.db.files)) [
    | inl f ↦ ground arith
    | inr (x, f) ↦ ground arith
  ]

  create_cases :
      (password : Text) (x : File) (token : Text)
      → first (has_id i) w.db.files ≡ some x
      → w.random w.draws ≡ some token
      → ((Shares.create_share i owner password expire max v w).1.db ≡ w.db)
        ⊎ ((hash : Text) × ((Shares.create_share i owner password expire max v w).1.db
              ≡ (inserted token hash).1.db))
  unfolding Shares.create_share file_by_id draw
  create_cases [] x token f q =
      let k : ((Shares.create_share i owner [] expire max v w).1.db ≡ w.db)
          ⊎ ((Shares.create_share i owner [] expire max v w).1.db ≡ (inserted token []).1.db) =
        ground arith in
      elim k [ inl e ↦ inl e | inr e ↦ inr ([], e) ]
  create_cases (b ∷ p) x token f q = elim (Option-cases (v.bcrypt (b ∷ p))) [
    | inl h ↦ inl (ground arith)
    | inr (hash, h) ↦
        let k : ((Shares.create_share i owner (b ∷ p) expire max v w).1.db ≡ w.db)
            ⊎ ((Shares.create_share i owner (b ∷ p) expire max v w).1.db
                ≡ (inserted token hash).1.db) =
          ground arith in
        elim k [ inl e ↦ inl e | inr e ↦ inr (hash, e) ]
  ]

  create-ShareChange :
      (password : Text)
      → ShareChange w.db (Shares.create_share i owner password expire max v w).1.db
  create-ShareChange password = elim (Option-cases (first (has_id i) w.db.files)) [
    | inl f ↦ unchanged (create_stopped password (inl f))
    | inr (x, f) ↦ elim (Option-cases (w.random w.draws)) [
      | inl q ↦ unchanged (create_stopped password (inr q))
      | inr (token, q) ↦ elim (create_cases password x token f q) [
        | inl e ↦ unchanged e
        | inr (hash, e) ↦ rw e (
            insert-ShareChange token i owner hash
              (Shares.expiry expire v.cfg.default_share_expire w.now) max v at_insert)
      ]
    ]
  ]

pub data Request : Type 0 where
  create_share : ℕ → ℕ → Text → Option ℕ → ℕ → Request
  delete_share : ℕ → ℕ → Request
  download_shared_file : Text → Request
  download_with_verify_token : Text → Text → Request

-- The state after a call, whether it succeeds or fails.
pub serve : Request → Env → World → World
serve (create_share i owner password expire max) v w =
    (Shares.create_share i owner password expire max v w).1
serve (delete_share i owner) v w = (Shares.delete_share i owner v w).1
serve (download_shared_file t) v w = (Shares.download_shared_file t v w).1
serve (download_with_verify_token t signed) v w = (Shares.download_with_verify_token t signed v w).1

serve-ShareChange :
    (r : Request) (v : Env) (w : World) → IsBounded w.db → ShareChange w.db (serve r v w).db
unfolding serve
serve-ShareChange (create_share i owner password expire max) v w b =
    create-ShareChange i owner expire max v w password
serve-ShareChange (delete_share i owner) v w b = delete-ShareChange i owner v w
serve-ShareChange (download_shared_file t) v w b = download-ShareChange t v w b
serve-ShareChange (download_with_verify_token t signed) v w b = verified-ShareChange t v w signed b

pub run_shares : List Request → Env → World → World
run_shares [] v w = w
run_shares (r ∷ rs) v w = run_shares rs v (serve r v w)

-- Every sequence of creations, deletions and downloads of shares, by whomever and whichever calls of
-- the database fail, keeps the count of each share that has a bound within that bound.
pub run_shares-IsBounded :
    (rs : List Request) (v : Env) (w : World) → IsBounded w.db → IsBounded (run_shares rs v w).db
unfolding run_shares
run_shares-IsBounded [] v w b = b
run_shares-IsBounded (r ∷ rs) v w b =
    run_shares-IsBounded rs v (serve r v w)
      (ShareChange-IsBounded w.db (serve r v w).db (serve-ShareChange r v w b) b)
