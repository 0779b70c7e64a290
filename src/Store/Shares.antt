-- ===== src/Store/Shares.antt =====
-- internal/store/share.go: the tables `shares` and `temp_downloads`.
use networkdisk.Prelude.{
  ℕ, ◌+◌, Bool, not, ◌&&◌, ◌||◌, Option, ◌∷◌, ◌==◌, ltb, if◌then◌else◌, first, update, any, select,
}
use networkdisk.Text.{Text}
use networkdisk.Model.{Share, TempDownload, Db}
use networkdisk.Exec.{
  ok, err, bad_share, no_key, foreign_key, share_exhausted, Exec, raise_if, call, put_db, ◌>>=◌,
}
use networkdisk.Store.Sql.{has_id, is_empty, must_be_positive, query_row, exec, user_exists}

unfoldable pub share_by_id : ℕ → Exec Share
unfolding call
share_by_id i = must_be_positive i (call (query_row (λ v d. first (λ s. s.id == i) d.shares)))

unfoldable pub share_by_token : Text → Exec Share
unfolding call
share_by_token t =
    raise_if (is_empty t) no_key
      (call (query_row (λ v d. first (λ s. v.same_text s.token t) d.shares)))

-- The row of the INSERT: nothing has been downloaded.
abbrev pub new_share : Text → ℕ → ℕ → Text → Option ℕ → ℕ → Db → Share
new_share token f owner hash expire max d = record {
  id = d.last_share + 1;
  token = token;
  file_id = f;
  owner_id = owner;
  password_hash = hash;
  expire_at = expire;
  max_downloads = max;
  view_count = 0;
}

abbrev pub add_share : Text → ℕ → ℕ → Text → Option ℕ → ℕ → Db → Db
add_share token f owner hash expire max d = record d {
  shares = new_share token f owner hash expire max d ∷ d.shares;
  last_share = d.last_share + 1;
}

-- The INSERT, with its foreign keys and the unique key on `token`.
abbrev insert_share : Text → ℕ → ℕ → Text → Option ℕ → ℕ → Exec ℕ
insert_share token f owner hash expire max v w =
    if any (has_id f) w.db.files
      && user_exists owner w.db
      && not (any (λ s. v.same_text s.token token) w.db.shares)
    then (ok (w.db.last_share + 1), put_db (add_share token f owner hash expire max w.db) w)
    else (err foreign_key, w)

unfoldable pub create_share : Text → ℕ → ℕ → Text → Option ℕ → ℕ → Exec Share
unfolding call ◌>>=◌ share_by_id
create_share token f owner hash expire max =
    raise_if (is_empty token || f == 0 || owner == 0) bad_share
      (do i ← call (insert_share token f owner hash expire max); share_by_id i)

abbrev pub drop_share : ℕ → Db → Db
drop_share i d = record d { shares = select (λ s. not (s.id == i)) d.shares }

unfoldable pub delete_share : ℕ → Exec (Unit {0})
unfolding call
delete_share i = must_be_positive i (call (exec (drop_share i)))

abbrev pub viewed : Share → Share
viewed s = record s { view_count = s.view_count + 1 }

abbrev pub count_view : (Share → Bool) → Db → Db
count_view p d = record d { shares = update p viewed d.shares }

unfoldable pub increment_share_view_count : ℕ → Exec (Unit {0})
unfolding call
increment_share_view_count i = must_be_positive i (call (exec (count_view (λ s. s.id == i))))

abbrev pub under : ℕ → ℕ → Share → Bool
under i max s = s.id == i && ltb s.view_count max

-- One UPDATE tests the bound and counts; it fails where it affects no row. No bound is 0.
unfoldable pub increment_share_view_count_if_under_max : ℕ → ℕ → Exec (Unit {0})
unfolding call increment_share_view_count
increment_share_view_count_if_under_max i max = must_be_positive i (
    if max == 0
    then increment_share_view_count i
    else (call λ v w.
        if any (under i max) w.db.shares
        then exec (count_view (under i max)) v w
        else (err share_exhausted, w)))

unfoldable pub temp_download_by_id : ℕ → Exec TempDownload
unfolding call
temp_download_by_id i =
    must_be_positive i (call (query_row (λ v d. first (λ t. t.id == i) d.temp_downloads)))

unfoldable pub temp_download_by_token : Text → Exec TempDownload
unfolding call
temp_download_by_token t =
    raise_if (is_empty t) no_key
      (call (query_row (λ v d. first (λ s. v.same_text s.token t) d.temp_downloads)))

abbrev pub new_temp_download : Text → ℕ → ℕ → ℕ → Db → TempDownload
new_temp_download token f u expire d = record {
  id = d.last_temp_download + 1;
  token = token;
  file_id = f;
  user_id = u;
  expire_at = expire;
}

abbrev insert_temp_download : Text → ℕ → ℕ → ℕ → Exec ℕ
insert_temp_download token f u expire v w =
    if any (has_id f) w.db.files
      && user_exists u w.db
      && not (any (λ s. v.same_text s.token token) w.db.temp_downloads)
    then (
      ok (w.db.last_temp_download + 1),
      put_db
          (record (w.db) {
            temp_downloads = new_temp_download token f u expire w.db ∷ w.db.temp_downloads;
            last_temp_download = w.db.last_temp_download + 1;
          })
          w,
    )
    else (err foreign_key, w)

unfoldable pub create_temp_download : Text → ℕ → ℕ → ℕ → Exec TempDownload
unfolding call ◌>>=◌ temp_download_by_id
create_temp_download token f u expire =
    raise_if (is_empty token || f == 0 || u == 0) bad_share
      (do i ← call (insert_temp_download token f u expire); temp_download_by_id i)

unfoldable pub delete_expired_temp_downloads : Exec (Unit {0})
unfolding call
delete_expired_temp_downloads = call λ v w.
    exec
      (λ d. record d {
        temp_downloads = select (λ t. not (ltb t.expire_at w.now)) d.temp_downloads;
      })
      v w
