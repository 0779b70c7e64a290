-- ===== src/Shares.antt =====
-- internal/service/share.go: shares of a file by a link, with a bound on downloads and a password; and
-- `CreateTempLink` of internal/service/file.go.
pub mod Bound
pub mod Downloads
pub mod Viewed
pub mod Verified
pub mod Requests
use networkdisk.Prelude.{
  ℕ, zero, suc, ◌+◌, ◌-◌, ◌*◌, ◌^◌, Bool, true, false, not, ◌&&◌, ◌||◌, Option, none, some, List,
  [], ◌∷◌, ◌++◌, ◌==◌, ltb, leb, if◌then◌else◌,
}
use networkdisk.Prelude.Int.{ℤ, pos, negsuc, sub_ℕ}
use networkdisk.Numbers.{parse_int}
use networkdisk.Text.{Text, bytes, text_eq, decimal}
use networkdisk.Model.{File, Share, TempDownload, Attempt, Env, World, Memory}
use networkdisk.Exec.{
  ok, err, file_not_found, folder_not_allowed, share_not_found, share_expired, share_exhausted,
  share_has_password, share_has_no_password, wrong_share_password, weak_password, bad_verify_token,
  verify_token_expired, link_expired, too_many_attempts, Exec, pure, raise, refuse_if, or_raise,
  on_no_rows, lift_option, draw, ◌>>=◌, ◌>>◌,
}
use networkdisk.Store.Sql.{is_empty}
use networkdisk.Store.Files
use networkdisk.Store.Shares as Table

abbrev hash_unless_empty : Text → Exec Text
hash_unless_empty [] v w = (ok [], w)
hash_unless_empty (b ∷ t) v w = lift_option weak_password (v.bcrypt (b ∷ t)) v w

-- The caller's time, or the configured duration (parsed, and greater than 0) from now.
abbrev expiry : Option ℕ → Option ℕ → ℕ → Option ℕ
expiry (some t) default now = some t
expiry none none now = none
expiry none (some d) now = some (now + d)

abbrev insert_with_expiry : Text → ℕ → ℕ → Text → Option ℕ → ℕ → Exec Share
insert_with_expiry token f owner hash expire max v w =
    Table.create_share token f owner hash (expiry expire v.cfg.default_share_expire w.now) max v w

unfoldable pub create_share : ℕ → ℕ → Text → Option ℕ → ℕ → Exec Share
unfolding ◌>>=◌ refuse_if on_no_rows
create_share i owner password expire max = do
  f ← on_no_rows file_not_found (Files.file_by_id i)
  refuse_if (not (f.user_id == owner) || f.is_deleted) file_not_found
  refuse_if f.is_dir folder_not_allowed
  token ← draw
  hash ← hash_unless_empty password
  insert_with_expiry token i owner hash expire max

unfoldable pub delete_share : ℕ → ℕ → Exec (Unit {0})
unfolding ◌>>=◌ refuse_if on_no_rows
delete_share i owner = do
  share ← on_no_rows share_not_found (Table.share_by_id i)
  refuse_if (not (share.owner_id == owner)) share_not_found
  Table.delete_share i

abbrev is_past : Option ℕ → ℕ → Bool
is_past none now = false
is_past (some t) now = ltb t now

abbrev refuse_past : Option ℕ → Exec (Unit {0})
refuse_past t v w = (if is_past t w.now then err share_expired else ok tt, w)

-- `share.MaxDownloads > 0 && share.ViewCount >= share.MaxDownloads`.
abbrev pub is_exhausted : Share → Bool
is_exhausted s = ltb 0 s.max_downloads && leb s.max_downloads s.view_count

unfoldable pub get_share_by_token : Text → Exec (Share × File)
unfolding ◌>>=◌ refuse_if on_no_rows
get_share_by_token t = do
  share ← on_no_rows share_not_found (Table.share_by_token t)
  refuse_past share.expire_at
  refuse_if (is_exhausted share) share_exhausted
  f ← on_no_rows share_not_found (Files.file_by_id share.file_id)
  refuse_if f.is_deleted share_not_found
  pure (share, f)

unfoldable pub download_shared_file : Text → Exec (File × Share)
unfolding ◌>>=◌ refuse_if
download_shared_file t = do
  r ← get_share_by_token t
  refuse_if (not (is_empty r.0.password_hash)) share_has_password
  Table.increment_share_view_count_if_under_max r.0.id r.0.max_downloads
  pure (r.1, r.0)

-- `shareVerifyTokenTTL`, in seconds.
abbrev pub verify_token_ttl : ℕ
verify_token_ttl = 300

abbrev bar : Text
bar = bytes "|"

-- The text that is signed, and the text that goes out encoded.
abbrev pub payload : Text → Text → Text
payload expires token = expires ++ (bar ++ token)

unfoldable pub sign_verify_token : Text → Exec Text
sign_verify_token token v w =
    let p = payload (decimal (w.now + verify_token_ttl)) token in
    (ok (v.base64_encode (p ++ (bar ++ v.mac p))), w)

abbrev before : ℕ → Option (Text × Text) → Option (Text × Text)
before b none = none
before b (some (s, t)) = some (b ∷ s, t)

-- The text before the first `|`, and the text after it.
unfoldable pub cut : Text → Option (Text × Text)
cut [] = none
cut (b ∷ s) = let rest = cut s in if b == 124 then some ([], s) else before b rest

abbrev cut_rest : Text → Option (Text × Text) → Option (Text × Text × Text)
cut_rest a none = none
cut_rest a (some (b, c)) = some (a, b, c)

abbrev and_cut : Option (Text × Text) → Option (Text × Text × Text)
and_cut none = none
and_cut (some (a, s)) = cut_rest a (cut s)

-- `strings.SplitN(s, "|", 3)`, where it has three parts.
unfoldable pub split_three : Text → Option (Text × Text × Text)
split_three s = and_cut (cut s)

abbrev check_time : Option ℤ → Exec (Unit {0})
check_time none v w = (err bad_verify_token, w)
check_time (some (pos t)) v w = (if ltb t w.now then err verify_token_expired else ok tt, w)
check_time (some (negsuc t)) v w = (err verify_token_expired, w)

abbrev check_signature : Text → Text → Exec (Unit {0})
check_signature p sig v w = (if text_eq sig (v.mac p) then ok tt else err bad_verify_token, w)

unfoldable pub check_parts : Text → Option (Text × Text × Text) → Exec (Unit {0})
unfolding ◌>>=◌ refuse_if
check_parts token none = raise bad_verify_token
check_parts token (some (expires, t, sig)) =
    check_time (parse_int expires)
    >> refuse_if (not (text_eq t token)) bad_verify_token
    >> check_signature (payload expires t) sig

abbrev check_decoded : Text → Option Text → Exec (Unit {0})
check_decoded token none = raise bad_verify_token
check_decoded token (some s) = check_parts token (split_three s)

unfoldable pub validate_verify_token : Text → Text → Exec (Unit {0})
unfolding check_parts
validate_verify_token token signed v w = check_decoded token (v.base64_decode signed) v w

-- The download counts before the row of the file is read.
unfoldable pub download_with_verify_token : Text → Text → Exec File
unfolding ◌>>=◌ refuse_if on_no_rows or_raise
download_with_verify_token t signed = do
  validate_verify_token t signed
  share ← on_no_rows share_not_found (Table.share_by_token t)
  refuse_past share.expire_at
  or_raise share_exhausted
      (Table.increment_share_view_count_if_under_max share.id share.max_downloads)
  f ← on_no_rows share_not_found (Files.file_by_id share.file_id)
  refuse_if f.is_deleted share_not_found
  pure f

abbrev set_password_attempt : Text → Option Attempt → World → World
set_password_attempt client a w = record w {
  memory = record (w.memory) {
    password_attempts = λ c. if text_eq c client then a else w.memory.password_attempts c;
  };
}

abbrev current_attempt : ℕ → ℕ → Option Attempt → Attempt
current_attempt reset now none = record { count = 0; reset_at = now + reset }
current_attempt reset now (some a) =
    if ltb a.reset_at now then record { count = 0; reset_at = now + reset } else a

abbrev is_known : Option Attempt → Bool
is_known none = false
is_known (some a) = true

-- What `VerifySharePassword` does under the lock.
unfoldable pub take_password_attempt : Text → ℕ → Exec (Unit {0})
take_password_attempt client max v w =
    let a = current_attempt v.cfg.password_reset w.now (w.memory.password_attempts client) in
    if is_known (w.memory.password_attempts client) && leb max a.count && not (ltb a.reset_at w.now)
    then (err too_many_attempts, set_password_attempt client (some a) w)
    else (ok tt, set_password_attempt client (some (record a { count = a.count + 1 })) w)

unfoldable pub reset_password_limiter : Text → Exec (Unit {0})
reset_password_limiter client v w = (ok tt, set_password_attempt client none w)

abbrev matches : Text → Text → Exec Bool
matches hash password v w = (ok (v.bcrypt_matches hash password), w)

unfoldable pub verify_share_password : Text → Text → Text → ℕ → Exec (File × Text)
unfolding ◌>>=◌ refuse_if on_no_rows
verify_share_password t password client max = do
  take_password_attempt client max
  share ← on_no_rows share_not_found (Table.share_by_token t)
  refuse_if (is_empty share.password_hash) share_has_no_password
  good ← matches share.password_hash password
  refuse_if (not good) wrong_share_password
  reset_password_limiter client
  signed ← sign_verify_token t
  f ← Files.file_by_id share.file_id
  pure (f, signed)

abbrev refuse_late : ℕ → Exec (Unit {0})
refuse_late t v w = (if ltb t w.now then err link_expired else ok tt, w)

unfoldable pub get_temp_download : Text → Exec (TempDownload × File)
unfolding ◌>>=◌ refuse_if on_no_rows
get_temp_download t = do
  link ← on_no_rows share_not_found (Table.temp_download_by_token t)
  refuse_late link.expire_at
  f ← on_no_rows file_not_found (Files.file_by_id link.file_id)
  refuse_if f.is_deleted file_not_found
  pure (link, f)

abbrev insert_link : Text → ℕ → ℕ → Exec TempDownload
insert_link token i u v w = Table.create_temp_download token i u (w.now + v.cfg.temp_link_ttl) v w

unfoldable pub create_temp_link : ℕ → ℕ → Exec TempDownload
unfolding ◌>>=◌ refuse_if on_no_rows
create_temp_link i u = do
  f ← on_no_rows file_not_found (Files.file_by_id i)
  refuse_if (not (f.user_id == u) || f.is_deleted || f.is_dir) file_not_found
  token ← draw
  insert_link token i u
