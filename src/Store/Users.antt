-- ===== src/Store/Users.antt =====
-- internal/store/user.go: the methods of `Store` and `Tx` on the tables `users` and `refresh_tokens`.
use networkdisk.Prelude.{
  ℕ, ◌+◌, Bool, true, false, not, ◌&&◌, ◌||◌, ◌∷◌, ◌==◌, if◌then◌else◌, first, update, any,
}
use networkdisk.Prelude.Int.{ℤ, pos, pos_part, ◌+ℤ◌}
use networkdisk.Text.{Text, trim_space}
use networkdisk.Model.{User, RefreshToken, Db}
use networkdisk.Exec.{
  ok, err, no_rows, no_key, foreign_key, Exec, pure, raise_if, call, put_db, ◌>>=◌,
}
use networkdisk.Store.Sql.{is_empty, must_be_positive, query_row, exec, user_exists}

unfoldable pub user_by_id : ℕ → Exec User
unfolding call
user_by_id i = must_be_positive i (call (query_row (λ v d. first (λ u. u.id == i) d.users)))

unfoldable pub user_by_username : Text → Exec User
unfolding call
user_by_username n =
    raise_if (is_empty (trim_space n)) no_key
      (call (query_row (λ v d. first (λ u. v.same_text u.username n) d.users)))

abbrev pub update_users : ℕ → (User → User) → Db → Db
update_users i f d = record d { users = update (λ u. u.id == i) f d.users }

-- `storage_used = GREATEST(storage_used + ?, 0)`.
unfoldable pub add_used : ℤ → User → User
add_used delta u = record u { storage_used = pos_part (pos u.storage_used +ℤ delta) }

unfoldable pub update_user_storage_used : ℕ → ℤ → Exec (Unit {0})
unfolding call
update_user_storage_used i delta =
    must_be_positive i (call (exec (update_users i (add_used delta))))

unfoldable pub set_totp_secret : ℕ → Text → Exec (Unit {0})
unfolding call
set_totp_secret i s =
    must_be_positive i (call (exec (update_users i (λ u. record u { totp_secret = s }))))

unfoldable pub user_totp_secret : ℕ → Exec Text
unfolding call ◌>>=◌
user_totp_secret i =
    must_be_positive i
      (do u ← call (query_row (λ v d. first (λ u. u.id == i) d.users)); pure u.totp_secret)

unfoldable pub refresh_token_by_hash : Text → Exec RefreshToken
unfolding call
refresh_token_by_hash h =
    raise_if (is_empty h) no_key
      (call (query_row (λ v d. first (λ t. v.same_text t.token_hash h) d.tokens)))

abbrev pub update_tokens : (RefreshToken → Bool) → Db → Db
update_tokens p d = record d { tokens = update p (λ t. record t { revoked = true }) d.tokens }

-- The UPDATE, which fails where it affects no row.
unfoldable pub revoke_refresh_token : ℕ → Exec (Unit {0})
unfolding call
revoke_refresh_token i = must_be_positive i (
    call λ v w.
      if any (λ t. t.id == i && not t.revoked) w.db.tokens
      then exec (update_tokens (λ t. t.id == i && not t.revoked)) v w
      else (err no_rows, w))

unfoldable pub revoke_token_family : Text → Exec (Unit {0})
unfolding call
revoke_token_family fam =
    raise_if (is_empty fam) no_key
      (call λ v w. exec (update_tokens (λ t. v.same_text t.family_id fam)) v w)

unfoldable pub revoke_user_tokens : ℕ → Exec (Unit {0})
unfolding call
revoke_user_tokens u =
    must_be_positive u (call (exec (update_tokens (λ t. t.user_id == u && not t.revoked))))

unfoldable pub update_user_password : ℕ → Text → Exec (Unit {0})
unfolding call
update_user_password i h = must_be_positive i (
    raise_if (is_empty h) no_key
      (call (exec (update_users i (λ u. record u { password_hash = h })))))

abbrev pub new_token : ℕ → Text → Text → ℕ → Db → RefreshToken
new_token u h fam exp d = record {
  id = d.last_token + 1;
  user_id = u;
  token_hash = h;
  family_id = fam;
  revoked = false;
  expires_at = exp;
}

-- The INSERT, with the foreign key on `user_id` and the unique key on `token_hash`.
abbrev insert_token : ℕ → Text → Text → ℕ → Exec ℕ
insert_token u h fam exp v w =
    if user_exists u w.db && not (any (λ t. v.same_text t.token_hash h) w.db.tokens)
    then (
      ok (w.db.last_token + 1),
      put_db
          (record (w.db) {
            tokens = new_token u h fam exp w.db ∷ w.db.tokens;
            last_token = w.db.last_token + 1;
          })
          w,
    )
    else (err foreign_key, w)

-- The INSERT, and the row read back.
unfoldable pub create_refresh_token : ℕ → Text → Text → ℕ → Exec RefreshToken
unfolding call ◌>>=◌
create_refresh_token u h fam exp = must_be_positive u (
    raise_if (is_empty h || is_empty fam) no_key (do
      i ← call (insert_token u h fam exp)
      call (query_row (λ v d. first (λ t. t.id == i) d.tokens))))
