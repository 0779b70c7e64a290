-- ===== src/Tests/Sessions.antt =====
-- The theorems about sessions and the limiter at concrete inputs.
use networkdisk.Prelude.{
  ℕ, ◌+◌, ◌≤◌, ◌≡◌, refl, sym, ◌∙◌, Bool, true, false, Option, none, some, List, [], ◌∷◌, In, here,
  there, All, arith,
}
use networkdisk.Text.{bytes, text_eq, text_eq→eq, text_eq_refl}
use networkdisk.Model.{RefreshToken, Db, World}
use networkdisk.Exec.{ok, err, token_revoked}
use networkdisk.Sessions.{TokenPair, refresh_access_token}
use networkdisk.Sessions.Rotation.{IsTextEquality, HashesApart}
use networkdisk.Sessions.Refresh.{row}
use networkdisk.Sessions.Requests.{Request, login, logout, run}
use networkdisk.Sessions.Once.{refresh_access_token-once, refresh_access_token-revoked}
use networkdisk.RateLimit.{RateLimiter}
use networkdisk.RateLimit.Window.{Event, request, sweep, passed, passed_lem, passed_window, Counted}
use networkdisk.Tests.Sample.{sample_env, sample_db, world_of, user_of}

abbrev token_row : Bool → RefreshToken
token_row revoked = record {
  id = 1;
  user_id = 1;
  token_hash = bytes "tok";
  family_id = bytes "fam";
  revoked = revoked;
  expires_at = 500;
}

abbrev db_of : Bool → Db
db_of revoked = record sample_db { tokens = token_row revoked ∷ []; last_token = 1 }

abbrev start : Bool → World
start revoked = world_of (db_of revoked)

sample-IsTextEquality : IsTextEquality sample_env
sample-IsTextEquality = record {
  same_sym = λ a b h. let e : a ≡ b = text_eq→eq a b h in rw e (text_eq_refl b);
  same_trans = λ a b c h k. let e : a ≡ b = text_eq→eq a b h in rw e k;
}

one_row-HashesApart : HashesApart sample_env (db_of false)
one_row-HashesApart = record { apart = λ s t m n h. apart_one s t m n }
  where
    apart_one :
        (s t : RefreshToken) → In s (token_row false ∷ []) → In t (token_row false ∷ []) → s ≡ t
    apart_one s t (here p) (here q) = p ∙ sym q
    apart_one s t (here p) (there x8) = elim x8 [ ]
    apart_one s t (there x8) n = elim x8 [ ]

abbrev fresh_pair : TokenPair
fresh_pair = record {
  access_token = bytes "jwt";
  refresh_token = 0 ∷ [];
  expires_in = 50;
  csrf_token = 1 ∷ [];
}

refreshed :
    (refresh_access_token (bytes "tok") sample_env (start false)).0
    ≡ ok (user_of 1 (bytes "ann") 30, fresh_pair)
unfolding refresh_access_token networkdisk.Store.Users.refresh_token_by_hash
    networkdisk.Prelude.first text_eq networkdisk.Sessions.rotate
    networkdisk.Store.Users.revoke_refresh_token networkdisk.Prelude.any
    networkdisk.Store.Users.user_by_id networkdisk.Exec.draw networkdisk.Sessions.keep_token
    networkdisk.Store.Users.create_refresh_token networkdisk.Prelude.update
    networkdisk.Sessions.generate_access_token
refreshed = refl

abbrev later : List Request
later = login (bytes "ann") (bytes "secret") [] ∷ logout (bytes "tok") ∷ []

refresh_access_token-once_example : ¬ (
    (refresh_access_token
      (bytes "tok")
      sample_env
      (run later sample_env (refresh_access_token (bytes "tok") sample_env (start false)).1)).0
    ≡ ok (user_of 1 (bytes "ann") 30, fresh_pair))
refresh_access_token-once_example =
    refresh_access_token-once (bytes "tok") sample_env (start false)
      (user_of 1 (bytes "ann") 30, fresh_pair) later (user_of 1 (bytes "ann") 30, fresh_pair)
      sample-IsTextEquality one_row-HashesApart refreshed

replayed_row : row sample_env (start true) (bytes "tok") ≡ some (token_row true)
unfolding text_eq networkdisk.Prelude.first
replayed_row = refl

replayed : (refresh_access_token (bytes "tok") sample_env (start true)).0 ≡ err token_revoked
unfolding refresh_access_token networkdisk.Store.Users.refresh_token_by_hash
    networkdisk.Prelude.first text_eq networkdisk.Store.Users.revoke_token_family
replayed = refl

replayed-In :
    In (token_row true) (refresh_access_token (bytes "tok") sample_env (start true)).1.db.tokens
unfolding refresh_access_token networkdisk.Store.Users.refresh_token_by_hash
    networkdisk.Prelude.first text_eq networkdisk.Store.Users.revoke_token_family
    networkdisk.Prelude.update
replayed-In = here refl

refresh_access_token-revoked_example : (token_row true).revoked ≡ true
refresh_access_token-revoked_example =
    refresh_access_token-revoked (bytes "tok") sample_env (start true) (token_row true) replayed_row
      refl replayed (token_row true) replayed-In (text_eq_refl (bytes "fam"))

abbrev burst : List Event
burst =
    request (bytes "a") 1
    ∷ request (bytes "b") 2
    ∷ sweep 3
    ∷ request (bytes "a") 4
    ∷ request (bytes "a") 5
    ∷ []

abbrev two_an_hour : RateLimiter
two_an_hour = record { visitors = λ h. none; limit = 2; window = 3600 }

passed_window_example : passed (bytes "a") (request (bytes "a") 0 ∷ burst) two_an_hour ≤ 2
passed_window_example =
    passed_window (bytes "a") 0 burst two_an_hour refl (ground arith) (ground arith)

abbrev known : RateLimiter
known = record two_an_hour { visitors = λ h. some (record { count = 1; reset_at = 3600 }) }

known-Counted : Counted (bytes "a") 3600 known 1
known-Counted = record {
  entry = record { count = 1; reset_at = 3600 };
  found = refl;
  until = refl;
  count = refl;
}

passed_lem_example : passed (bytes "a") burst known + 1 ≤ 2
passed_lem_example =
    passed_lem (bytes "a") 3600 burst known 1 (ground arith) known-Counted (ground arith)
