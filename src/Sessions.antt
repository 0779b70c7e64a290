-- ===== src/Sessions.antt =====
-- internal/service/user.go: refresh tokens and passwords.
pub mod Rotation
pub mod Refresh
pub mod Requests
pub mod Once
use networkdisk.Prelude.{
  ℕ, zero, suc, ◌+◌, Bool, true, false, not, Option, none, some, List, [], ◌∷◌, ◌==◌, ltb, leb,
  if◌then◌else◌, length,
}
use networkdisk.Text.{Text, leading, trim_space}
use networkdisk.Model.{User, RefreshToken, Attempt, Env, World, Memory}
use networkdisk.Exec.{
  invalid_credentials, token_revoked, token_expired, weak_password, signing, totp_required,
  invalid_totp, too_many_attempts, ok, err, Exec, pure, raise, refuse_if, or_raise, lift_option,
  transaction, draw, ◌>>=◌, ◌>>◌,
}
use networkdisk.Store.Sql.{is_empty}
use networkdisk.Store.Users

-- `TokenPair`.
pub record TokenPair : Type 0 where
  pub access_token : Text
  pub refresh_token : Text
  pub expires_in : ℕ
  pub csrf_token : Text

-- `generateAccessToken`; the claims are the number and the name of the user, and the times.
unfoldable pub generate_access_token : User → Exec Text
generate_access_token user v w = lift_option signing (v.sign_access user.id user.username w.now) v w

abbrev pub now_plus : (Env → ℕ) → (ℕ → Exec RefreshToken) → Exec RefreshToken
now_plus after f v w = f (w.now + after v) v w

abbrev pub hash_of : Text → (Text → Exec RefreshToken) → Exec RefreshToken
hash_of t f v w = f (v.sha256_hex t) v w

abbrev pub pair_of : Text → Text → Text → Exec TokenPair
pair_of access refresh csrf v w = (
  ok (record {
    access_token = access;
    refresh_token = refresh;
    expires_in = v.cfg.jwt_expire;
    csrf_token = csrf;
  }),
  w,
)

-- The INSERT of the hash of a token, good for the configured time.
unfoldable pub keep_token : ℕ → Text → Text → Exec RefreshToken
keep_token u t fam =
    hash_of t
      λ h. now_plus (λ v. v.cfg.refresh_expire) λ exp. Users.create_refresh_token u h fam exp

unfoldable pub issue_tokens : User → Exec TokenPair
unfolding ◌>>=◌
issue_tokens user = do
  access ← generate_access_token user
  refresh ← draw
  keep_token user.id refresh (leading 36 refresh)
  csrf ← draw
  pair_of access refresh csrf

-- `RefreshTokenByHash(hashToken(t))`.
abbrev pub token_of : Text → Exec RefreshToken
token_of t = hash_of t Users.refresh_token_by_hash

abbrev now_after : ℕ → (Bool → Exec (User × TokenPair)) → Exec (User × TokenPair)
now_after t f v w = f (ltb t w.now) v w

-- The transaction: the old token is revoked, and a new one of the same family is kept.
unfoldable pub rotate : RefreshToken → Exec (User × Text)
unfolding ◌>>=◌ transaction
rotate rt = transaction (do
  Users.revoke_refresh_token rt.id
  user ← Users.user_by_id rt.user_id
  fresh ← draw
  keep_token user.id fresh rt.family_id
  pure (user, fresh))

abbrev renew : RefreshToken → Exec (User × TokenPair)
renew rt = do
  r ← rotate rt
  access ← generate_access_token r.0
  csrf ← draw
  pair ← pair_of access r.1 csrf
  pure (r.0, pair)

unfoldable pub refresh_access_token : Text → Exec (User × TokenPair)
unfolding ◌>>=◌ or_raise
refresh_access_token t = do
  rt ← or_raise invalid_credentials (token_of t)
  if rt.revoked
      then Users.revoke_token_family rt.family_id >> raise token_revoked
      else now_after rt.expires_at λ late. if late then raise token_expired else renew rt

unfoldable pub logout : Text → Exec (Unit {0})
unfolding ◌>>=◌
logout t = do rt ← token_of t; Users.revoke_refresh_token rt.id

abbrev matches : Text → Text → Exec Bool
matches hash password v w = (ok (v.bcrypt_matches hash password), w)

abbrev hashed : Text → Exec Text
hashed password v w = lift_option weak_password (v.bcrypt password) v w

unfoldable pub change_password : ℕ → Text → Text → Exec (Unit {0})
unfolding ◌>>=◌ refuse_if transaction
change_password u old fresh = do
  refuse_if (ltb (length fresh) 6) weak_password
  user ← Users.user_by_id u
  good ← matches user.password_hash old
  refuse_if (not good) invalid_credentials
  h ← hashed fresh
  transaction (Users.update_user_password u h >> Users.revoke_user_tokens u)
