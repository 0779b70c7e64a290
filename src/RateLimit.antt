-- ===== src/RateLimit.antt =====
-- internal/middleware/ratelimit.go: `RateLimiter`, which counts the requests of a client in a window.
pub mod Window
use networkdisk.Prelude.{
  ℕ, ◌+◌, Bool, true, false, Option, none, some, List, [], ◌∷◌, ltb, leb, if◌then◌else◌,
}
use networkdisk.Text.{Text, text_eq}

pub record Visitor : Type 0 where
  pub count : ℕ
  pub reset_at : ℕ

-- `visitors` is the map by client; the clock is an argument of the operations.
pub record RateLimiter : Type 0 where
  pub visitors : Text → Option Visitor
  pub limit : ℕ
  pub window : ℕ

pub new_rate_limiter : ℕ → ℕ → RateLimiter
new_rate_limiter limit window = record { visitors = λ h. none; limit = limit; window = window }

abbrev pub set_visitor : Text → Visitor → RateLimiter → RateLimiter
set_visitor host x rl = record rl {
  visitors = λ h. if text_eq h host then some x else rl.visitors h;
}

abbrev first_visit : Text → ℕ → RateLimiter → Bool × RateLimiter
first_visit host now rl =
    (true, set_visitor host (record { count = 1; reset_at = now + rl.window }) rl)

abbrev allow_visitor : Text → ℕ → RateLimiter → Option Visitor → Bool × RateLimiter
allow_visitor host now rl none = first_visit host now rl
allow_visitor host now rl (some x) =
    if ltb x.reset_at now
    then first_visit host now rl
    else if leb rl.limit x.count
    then (false, rl)
    else (true, set_visitor host (record x { count = x.count + 1 }) rl)

unfoldable pub allow : Text → ℕ → RateLimiter → Bool × RateLimiter
allow host now rl = allow_visitor host now rl (rl.visitors host)

abbrev kept : ℕ → Option Visitor → Option Visitor
kept now none = none
kept now (some x) = if ltb x.reset_at now then none else some x

-- One round of the goroutine `cleanup`.
unfoldable pub cleanup : ℕ → RateLimiter → RateLimiter
cleanup now rl = record rl { visitors = λ h. kept now (rl.visitors h) }
