-- ===== src/Totp.antt =====
-- internal/service/user.go: the second factor of a login, and the limit on attempts at it.
use networkdisk.Prelude.{
  ℕ, ◌+◌, Bool, false, not, ◌&&◌, Option, none, some, [], ◌==◌, ltb, leb, if◌then◌else◌,
}
use networkdisk.Text.{Text, trim_space}
use networkdisk.Model.{User, Attempt, Pending, World}
use networkdisk.Exec.{
  invalid_credentials, totp_required, invalid_totp, too_many_attempts, totp_not_pending,
  totp_not_enabled, totp_enabled, ok, err, Exec, pure, raise, refuse_if, or_raise, draw, ◌>>=◌,
  ◌>>◌,
}
use networkdisk.Store.Sql.{is_empty}
use networkdisk.Store.Users
use networkdisk.Sessions.{TokenPair, issue_tokens}

-- Seconds: `15 * time.Minute` and `30 * time.Minute`.
abbrev pub totp_rate_limit_reset : ℕ
totp_rate_limit_reset = 900

abbrev pub pending_life : ℕ
pending_life = 1800

abbrev pub max_totp_attempts : ℕ
max_totp_attempts = 5

abbrev pub set_attempt : ℕ → Option Attempt → World → World
set_attempt u a w = record w {
  memory = record (w.memory) {
    totp_attempts = λ i. if i == u then a else w.memory.totp_attempts i;
  };
}

abbrev pub set_pending : ℕ → Option Pending → World → World
set_pending u p w = record w {
  memory = record (w.memory) { pending_totp = λ i. if i == u then p else w.memory.pending_totp i };
}

abbrev pub new_attempt : ℕ → Attempt
new_attempt now = record { count = 0; reset_at = now + totp_rate_limit_reset }

-- The entry as `Login` reads it: a missing one has a `resetAt` in the past.
abbrev pub current_attempt : ℕ → Option Attempt → Attempt
current_attempt now none = new_attempt now
current_attempt now (some a) = if ltb a.reset_at now then new_attempt now else a

-- What `Login` does under the lock before it looks at the code.
unfoldable pub take_attempt : ℕ → Exec (Unit {0})
take_attempt u v w =
    let a = current_attempt w.now (w.memory.totp_attempts u) in
    if leb max_totp_attempts a.count
    then (err too_many_attempts, set_attempt u (some a) w)
    else (ok tt, set_attempt u (some (record a { count = a.count + 1 })) w)

unfoldable pub reset_totp_attempts : ℕ → Exec (Unit {0})
reset_totp_attempts u v w = (ok tt, set_attempt u none w)

abbrev valid_code : Text → Text → Exec Bool
valid_code code secret v w = (ok (v.totp_valid code secret), w)

unfoldable pub check_second_factor : User → Text → Exec (Unit {0})
unfolding ◌>>=◌ refuse_if
check_second_factor user code =
    if is_empty user.totp_secret
    then pure tt
    else if is_empty code
    then raise totp_required
    else (do
      take_attempt user.id
      good ← valid_code code user.totp_secret
      refuse_if (not good) invalid_totp
      reset_totp_attempts user.id)

abbrev matches : Text → Text → Exec Bool
matches hash password v w = (ok (v.bcrypt_matches hash password), w)

-- `Login`, which also returns the user where a code is required.
unfoldable pub login : Text → Text → Text → Exec (User × TokenPair)
unfolding ◌>>=◌ refuse_if or_raise
login username password code = do
  user ← or_raise invalid_credentials (Users.user_by_username (trim_space username))
  good ← matches user.password_hash password
  refuse_if (not good) invalid_credentials
  check_second_factor user code
  pair ← issue_tokens user
  pure (user, pair)

abbrev is_blocked : ℕ → Option Attempt → Bool
is_blocked now none = false
is_blocked now (some a) = leb max_totp_attempts a.count && not (ltb a.reset_at now)

unfoldable pub check_totp_rate_limit : ℕ → Exec (Unit {0})
check_totp_rate_limit u v w =
    if is_blocked w.now (w.memory.totp_attempts u)
    then (err too_many_attempts, w)
    else (ok tt, set_attempt u (some (current_attempt w.now (w.memory.totp_attempts u))) w)

abbrev count_of : Option Attempt → Attempt
count_of none = record { count = 1; reset_at = 0 }
count_of (some a) = record a { count = a.count + 1 }

-- A missing entry is the zero value.
unfoldable pub record_totp_attempt : ℕ → Exec (Unit {0})
record_totp_attempt u v w = (ok tt, set_attempt u (some (count_of (w.memory.totp_attempts u))) w)

-- The secret of `totp.Generate` is a random text; the provisioning URI is left out.
unfoldable pub generate_totp : ℕ → Exec Text
unfolding ◌>>=◌ refuse_if
generate_totp u = do
  user ← Users.user_by_id u
  refuse_if (not (is_empty user.totp_secret)) totp_enabled
  secret ← draw
  (λ v w. (ok secret, set_pending u (some (record { secret = secret; created_at = w.now })) w))

abbrev take_pending : ℕ → Exec (Option Pending)
take_pending u v w = (ok (w.memory.pending_totp u), set_pending u none w)

abbrev pending_secret : Option Pending → Text
pending_secret none = []
pending_secret (some p) = p.secret

unfoldable pub enable_totp : ℕ → Text → Exec (Unit {0})
unfolding ◌>>=◌ refuse_if
enable_totp u code = do
  check_totp_rate_limit u
  entry ← take_pending u
  refuse_if (is_empty (pending_secret entry)) totp_not_pending
  good ← valid_code code (pending_secret entry)
  if good
      then reset_totp_attempts u >> Users.set_totp_secret u (pending_secret entry)
      else record_totp_attempt u >> raise invalid_totp

unfoldable pub disable_totp : ℕ → Text → Exec (Unit {0})
unfolding ◌>>=◌ refuse_if
disable_totp u code = do
  check_totp_rate_limit u
  secret ← Users.user_totp_secret u
  refuse_if (is_empty secret) totp_not_enabled
  good ← valid_code code secret
  if good
      then reset_totp_attempts u >> Users.set_totp_secret u []
      else record_totp_attempt u >> raise invalid_totp

abbrev is_stale : ℕ → Pending → Bool
is_stale now p = ltb (p.created_at + pending_life) now

abbrev kept_pending : ℕ → Option Pending → Option Pending
kept_pending now none = none
kept_pending now (some p) = if is_stale now p then none else some p

abbrev kept_attempt : ℕ → Option Attempt → Option Attempt
kept_attempt now none = none
kept_attempt now (some a) =
    if ltb a.reset_at now && leb max_totp_attempts a.count then none else some a

unfoldable pub cleanup_totp_state : Exec (Unit {0})
cleanup_totp_state v w = (
  ok tt,
  record w {
    memory = record (w.memory) {
      pending_totp = λ u. kept_pending w.now (w.memory.pending_totp u);
      totp_attempts = λ u. kept_attempt w.now (w.memory.totp_attempts u);
    };
  },
)

unfoldable pub verify_login_totp : ℕ → Text → Exec (Unit {0})
unfolding ◌>>=◌ refuse_if
verify_login_totp u code = do
  secret ← Users.user_totp_secret u
  if is_empty secret then pure tt else (do
    refuse_if (is_empty code) totp_required
    good ← valid_code code secret
    refuse_if (not good) invalid_totp)
