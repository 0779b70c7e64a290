-- ===== src/Tests/Shares.antt =====
-- The theorems about shares at concrete inputs.
use networkdisk.Prelude.{
  ℕ, ◌+◌, ◌≡◌, refl, sym, ◌∙◌, Bool, true, false, Option, none, some, List, [], ◌∷◌, In, here,
  there, arith, ltb, leb, ◌&&◌, if◌then◌else◌,
}
use networkdisk.Text.{Text, bytes}
use networkdisk.Model.{File, Share, World}
use networkdisk.Exec.{err, ok, verify_token_expired}
use networkdisk.Shares.Verified.{Avoids, validate-sign}
use networkdisk.Shares.{sign_verify_token, validate_verify_token, verify_token_ttl}
use networkdisk.Shares as Shares
use networkdisk.Shares.Bound.{IsBounded}
use networkdisk.Shares.Requests.{
  Request, create_share, download_shared_file, run_shares, run_shares-IsBounded,
}
use networkdisk.Shares.Viewed.{download_shared_file-viewed}
use networkdisk.Store.Shares.{viewed}
use networkdisk.Tests.Sample.{sample_env, sample_db, sample_world, world_of, row_of}

abbrev one_share : Share
one_share = record {
  id = 1;
  token = bytes "link";
  file_id = 2;
  owner_id = 1;
  password_hash = [];
  expire_at = none;
  max_downloads = 2;
  view_count = 1;
}

abbrev share_world : World
share_world = world_of (record sample_db { shares = one_share ∷ []; last_share = 1 })

one_share-IsBounded : IsBounded share_world.db
one_share-IsBounded = record {
  unique = λ s t m n h. only s m ∙ sym (only t n);
  given = λ s m. let e = only s m in rw e (ground arith);
  within = λ s m h. let e = only s m in rw e (ground arith);
}
  where
    only : (s : Share) → In s (one_share ∷ []) → s ≡ one_share
    only s (here e) = e
    only s (there m) = elim m [ ]

abbrev visits : List Request
visits =
    create_share 2 1 [] none 5
    ∷ download_shared_file (bytes "link")
    ∷ download_shared_file (bytes "link")
    ∷ []

run_shares-IsBounded_example : IsBounded (run_shares visits sample_env share_world).db
run_shares-IsBounded_example =
    run_shares-IsBounded visits sample_env share_world one_share-IsBounded

abbrev shared_file : File
shared_file = row_of 2 1 (some 1) (bytes "a.txt") false 30

downloaded :
    (Shares.download_shared_file (bytes "link") sample_env share_world).0
    ≡ ok (shared_file, one_share)
unfolding Shares.download_shared_file Shares.get_share_by_token
    networkdisk.Store.Shares.share_by_token networkdisk.Prelude.first networkdisk.Text.text_eq
    networkdisk.Store.Files.file_by_id
    networkdisk.Store.Shares.increment_share_view_count_if_under_max networkdisk.Prelude.any
downloaded = refl

download_shared_file-viewed_example :
    In one_share share_world.db.shares
    × (Shares.is_exhausted one_share ≡ false)
    × (one_share.password_hash ≡ [])
    × (shared_file.is_deleted ≡ false)
    × In
        (viewed one_share)
        (Shares.download_shared_file (bytes "link") sample_env share_world).1.db.shares
download_shared_file-viewed_example =
    download_shared_file-viewed (bytes "link") sample_env share_world one_share shared_file
      downloaded

tok-Avoids : Avoids (bytes "tok")
tok-Avoids = λ b m. elim m [
  | here e ↦ ground (arith, e)
  | there n ↦ elim n [
    | here e ↦ ground (arith, e)
    | there n ↦ elim n [ here e ↦ ground (arith, e) | there n ↦ absurd (elim n [ ]) ]
  ]
]

signed_tok :
    (sign_verify_token (bytes "tok") sample_env sample_world).0 ≡ ok (bytes "400|tok|400|tok")
unfolding sign_verify_token networkdisk.Text.decimal
signed_tok = refl

-- The token of verification of the share is signed at 100 and shown at 400, when it is still good.
validate-sign_example :
    (validate_verify_token
      (bytes "tok")
      (bytes "400|tok|400|tok")
      sample_env
      (record sample_world { now = 400 })).0
    ≡ (if ltb (100 + verify_token_ttl) 400 then err verify_token_expired else ok tt)
validate-sign_example =
    validate-sign (bytes "tok") (bytes "400|tok|400|tok") sample_env sample_world
      (record sample_world { now = 400 }) (λ t. refl) tok-Avoids (ground arith) signed_tok
