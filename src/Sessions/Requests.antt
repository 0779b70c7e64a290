-- ===== src/Sessions/Requests.antt =====
-- The requests that concern sessions, and what any sequence of them does to the tokens.
use mathlib.Core.Path.{subst}
use networkdisk.Prelude.{
  ℕ, ◌+◌, ◌≡◌, refl, ◌⊎◌, inl, inr, false, not, ◌&&◌, Option, none, some, List, [], ◌∷◌, arith,
  ◌==◌, Bool-cases, Option-cases, first, any,
}
use networkdisk.Text.{Text, leading, trim_space}
use networkdisk.Model.{RefreshToken, User, Db, Env, World}
use networkdisk.Exec.{Result, Error, ok, err, Result-cases, tick, draw}
use networkdisk.Store.Users.{
  update_tokens, new_token, refresh_token_by_hash, revoke_refresh_token, user_by_id,
  user_by_username, update_user_password, revoke_user_tokens, set_totp_secret, user_totp_secret,
  create_refresh_token,
}
use networkdisk.Sessions as Sessions
use networkdisk.Sessions.{issue_tokens, keep_token, generate_access_token, rotate}
use networkdisk.Sessions.Rotation.{TokenChange, TokenReach, same, revoke, insert, done, step}
use networkdisk.Sessions.Refresh.{
  row, is_live_row, rotate_err-db, rotate-Rotated, refresh_revoked_cases, refresh_absent_db,
  refresh_rotated, refresh_not_rotated,
}
use networkdisk.Totp as Totp
use networkdisk.Totp.{check_second_factor}

pub data Request : Type 0 where
  login : Text → Text → Text → Request
  refresh_access_token : Text → Request
  logout : Text → Request
  change_password : ℕ → Text → Text → Request
  generate_totp : ℕ → Request
  enable_totp : ℕ → Text → Request
  disable_totp : ℕ → Text → Request
  cleanup_totp_state : Request

-- The state after a call of `UserService`, whether it succeeds or fails.
pub serve : Request → Env → World → World
serve (login n p c) v w = (Totp.login n p c v w).1
serve (refresh_access_token t) v w = (Sessions.refresh_access_token t v w).1
serve (logout t) v w = (Sessions.logout t v w).1
serve (change_password u old fresh) v w = (Sessions.change_password u old fresh v w).1
serve (generate_totp u) v w = (Totp.generate_totp u v w).1
serve (enable_totp u code) v w = (Totp.enable_totp u code v w).1
serve (disable_totp u code) v w = (Totp.disable_totp u code v w).1
serve cleanup_totp_state v w = (Totp.cleanup_totp_state v w).1

unchanged : {v : Env} {d d' : Db} → d'.tokens ≡ d.tokens → TokenReach v d d'
unchanged e = step (same e) (done refl)

keep_cases :
    (u : ℕ) (t fam : Text) (v : Env) (w : World)
    → ((keep_token u t fam v w).1.db ≡ w.db)
      ⊎ ((any (λ s. v.same_text s.token_hash (v.sha256_hex t)) w.db.tokens ≡ false)
          × ((keep_token u t fam v w).1.db.tokens
              ≡ new_token u (v.sha256_hex t) fam (w.now + v.cfg.refresh_expire) w.db ∷ w.db.tokens))
unfolding keep_token create_refresh_token
keep_cases u t fam v w = ground arith

keep-TokenReach :
    (u : ℕ) (t fam : Text) (v : Env) (w : World) → TokenReach v w.db (keep_token u t fam v w).1.db
keep-TokenReach u t fam v w = elim (keep_cases u t fam v w) [
  | inl e ↦ done e
  | inr k ↦ step (insert u (v.sha256_hex t) fam (w.now + v.cfg.refresh_expire) k.0 k.1) (done refl)
]

module _ (x : User) (v : Env) (w : World) where
  abbrev drawn : World
  drawn = record w { draws = w.draws + 1 }

  issue_cases :
      (t : Text)
      → w.random w.draws ≡ some t
      → ((issue_tokens x v w).1.db ≡ w.db)
        ⊎ ((issue_tokens x v w).1.db ≡ (keep_token x.id t (leading 36 t) v drawn).1.db)
  unfolding issue_tokens generate_access_token draw
  issue_cases t q = elim (Result-cases (keep_token x.id t (leading 36 t) v drawn).0) [
    | inl (k, e) ↦ ground arith
    | inr (k, e) ↦ ground arith
  ]

  issue_undrawn : w.random w.draws ≡ none → (issue_tokens x v w).1.db ≡ w.db
  unfolding issue_tokens generate_access_token draw
  issue_undrawn q = ground arith

  pub issue-TokenReach : TokenReach v w.db (issue_tokens x v w).1.db
  issue-TokenReach = elim (Option-cases (w.random w.draws)) [
    | inl q ↦ done (issue_undrawn q)
    | inr (t, q) ↦ elim (issue_cases t q) [
      | inl e ↦ done e
      | inr e ↦ rw e (keep-TokenReach x.id t (leading 36 t) v drawn)
    ]
  ]

check_second_factor-db :
    (x : User) (c : Text) (v : Env) (w : World) → (check_second_factor x c v w).1.db ≡ w.db
unfolding check_second_factor Totp.take_attempt Totp.reset_totp_attempts
check_second_factor-db x c v w = ground arith

module _ (n p c : Text) (v : Env) (w : World) where
  abbrev named : Option User
  named = first (λ x. v.same_text x.username (trim_space n)) w.db.users

  abbrev factored : User → Result (Unit {0}) × World
  factored x = check_second_factor x c v (tick w)

  login_absent : named ≡ none → (Totp.login n p c v w).1.db ≡ w.db
  unfolding Totp.login user_by_username
  login_absent f = ground arith

  login_refused :
      (x : User) (e : Error)
      → named ≡ some x
      → (factored x).0 ≡ err e
      → (Totp.login n p c v w).1.db ≡ w.db
  unfolding Totp.login user_by_username
  login_refused x e f q = ground (arith, check_second_factor-db x c v (tick w))

  login_cases :
      (x : User)
      → named ≡ some x
      → (factored x).0 ≡ ok tt
      → ((Totp.login n p c v w).1.db ≡ w.db)
        ⊎ ((Totp.login n p c v w).1.db ≡ (issue_tokens x v (factored x).1).1.db)
  unfolding Totp.login user_by_username
  login_cases x f q = elim (Result-cases (issue_tokens x v (factored x).1).0) [
    | inl (k, e) ↦ ground arith
    | inr (k, e) ↦ ground arith
  ]

  login-TokenReach : TokenReach v w.db (Totp.login n p c v w).1.db
  login-TokenReach = elim (Option-cases named) [
    | inl f ↦ done (login_absent f)
    | inr (x, f) ↦ elim (Result-cases (factored x).0) [
      | inr (e, q) ↦ done (login_refused x e f q)
      | inl (u, q) ↦ elim (login_cases x f q) [
        | inl e ↦ done e
        | inr e ↦ rw e (
            subst (λ d. TokenReach v d (issue_tokens x v (factored x).1).1.db)
              (check_second_factor-db x c v (tick w)) (issue-TokenReach x v (factored x).1))
      ]
    ]
  ]

module _ (t : Text) (v : Env) (w : World) where
  rotated-TokenReach : (rt : RefreshToken) → TokenReach v w.db (rotate rt v (tick w)).1.db
  rotated-TokenReach rt = elim (Result-cases (rotate rt v (tick w)).0) [
    | inr (e, q) ↦ done (rotate_err-db rt v (tick w) e q)
    | inl (q, e) ↦
        let r = rotate-Rotated rt v (tick w) q e in
        let old : TokenChange v w.db (update_tokens (is_live_row rt) w.db) =
          revoke (is_live_row rt) refl in
        let new : TokenChange v (update_tokens (is_live_row rt) w.db) (rotate rt v (tick w)).1.db =
          insert r.user r.fresh rt.family_id r.exp r.clear r.now_kept in
        step old (step new (done refl))
  ]

  refresh-TokenReach : TokenReach v w.db (Sessions.refresh_access_token t v w).1.db
  refresh-TokenReach = elim (Option-cases (row v w t)) [
    | inl f ↦ done (refresh_absent_db v w t f)
    | inr (rt, f) ↦ elim (Bool-cases rt.revoked) [
      | inl h ↦ elim (refresh_revoked_cases v w t rt f h) [
        | inl e ↦ done e
        | inr e ↦ step (revoke (λ s. v.same_text s.family_id rt.family_id) refl) (done e)
      ]
      | inr h ↦ elim (Result-cases (rotate rt v (tick w)).0) [
        | inr (e, q) ↦ done (refresh_not_rotated v w t rt e f h q)
        | inl (q, e) ↦ elim (refresh_rotated v w t rt q f h e) [
          | inl e ↦ done e
          | inr e ↦ rw e (rotated-TokenReach rt)
        ]
      ]
    ]
  ]

  logout_absent : row v w t ≡ none → (Sessions.logout t v w).1.db ≡ w.db
  unfolding Sessions.logout refresh_token_by_hash
  logout_absent f = ground arith

  logout_cases :
      (rt : RefreshToken)
      → row v w t ≡ some rt
      → ((Sessions.logout t v w).1.db ≡ w.db)
        ⊎ ((Sessions.logout t v w).1.db ≡ update_tokens (is_live_row rt) w.db)
  unfolding Sessions.logout refresh_token_by_hash revoke_refresh_token
  logout_cases rt f = ground arith

  logout-TokenReach : TokenReach v w.db (Sessions.logout t v w).1.db
  logout-TokenReach = elim (Option-cases (row v w t)) [
    | inl f ↦ done (logout_absent f)
    | inr (rt, f) ↦ elim (logout_cases rt f) [
      | inl e ↦ done e
      | inr e ↦ step (revoke (is_live_row rt) refl) (done e)
    ]
  ]

module _ (u : ℕ) (v : Env) (w : World) where
  abbrev numbered : Option User
  numbered = first (λ x. x.id == u) w.db.users

  change_cases :
      (old fresh : Text)
      → (numbered ≡ none) ⊎ ((x : User) × (numbered ≡ some x))
      → ((Sessions.change_password u old fresh v w).1.db.tokens ≡ w.db.tokens)
        ⊎ ((Sessions.change_password u old fresh v w).1.db.tokens
            ≡ (update_tokens (λ t. t.user_id == u && not t.revoked) w.db).tokens)
  unfolding Sessions.change_password user_by_id update_user_password revoke_user_tokens
  change_cases old fresh (inl f) = ground arith
  change_cases old fresh (inr (x, f)) = elim (Option-cases (v.bcrypt fresh)) [
    | inl b ↦ ground arith
    | inr (h, b) ↦ ground arith
  ]

  change-TokenReach :
      (old fresh : Text) → TokenReach v w.db (Sessions.change_password u old fresh v w).1.db
  change-TokenReach old fresh = elim (change_cases old fresh (Option-cases numbered)) [
    | inl e ↦ unchanged e
    | inr e ↦ step (revoke (λ t. t.user_id == u && not t.revoked) e) (done refl)
  ]

  generate_totp-tokens :
      (numbered ≡ none) ⊎ ((x : User) × (numbered ≡ some x))
      → (Totp.generate_totp u v w).1.db.tokens ≡ w.db.tokens
  unfolding Totp.generate_totp user_by_id draw
  generate_totp-tokens (inl f) = ground arith
  generate_totp-tokens (inr (x, f)) = elim (Option-cases (w.random w.draws)) [
    | inl q ↦ ground arith
    | inr (s, q) ↦ ground arith
  ]

  enable_totp-tokens : (code : Text) → (Totp.enable_totp u code v w).1.db.tokens ≡ w.db.tokens
  unfolding Totp.enable_totp Totp.check_totp_rate_limit Totp.reset_totp_attempts
      Totp.record_totp_attempt set_totp_secret
  enable_totp-tokens code = ground arith

  disable_totp-tokens :
      (code : Text)
      → (numbered ≡ none) ⊎ ((x : User) × (numbered ≡ some x))
      → (Totp.disable_totp u code v w).1.db.tokens ≡ w.db.tokens
  unfolding Totp.disable_totp Totp.check_totp_rate_limit Totp.reset_totp_attempts
      Totp.record_totp_attempt set_totp_secret user_totp_secret
  disable_totp-tokens code (inl f) = ground arith
  disable_totp-tokens code (inr (x, f)) = ground arith

pub serve-TokenReach : (r : Request) (v : Env) (w : World) → TokenReach v w.db (serve r v w).db
unfolding serve Totp.cleanup_totp_state
serve-TokenReach (login n p c) v w = login-TokenReach n p c v w
serve-TokenReach (refresh_access_token t) v w = refresh-TokenReach t v w
serve-TokenReach (logout t) v w = logout-TokenReach t v w
serve-TokenReach (change_password u old fresh) v w = change-TokenReach u v w old fresh
serve-TokenReach (generate_totp u) v w =
    unchanged (generate_totp-tokens u v w (Option-cases (numbered u v w)))
serve-TokenReach (enable_totp u code) v w = unchanged (enable_totp-tokens u v w code)
serve-TokenReach (disable_totp u code) v w =
    unchanged (disable_totp-tokens u v w code (Option-cases (numbered u v w)))
serve-TokenReach cleanup_totp_state v w = done refl

unfoldable pub run : List Request → Env → World → World
run [] v w = w
run (r ∷ rs) v w = run rs v (serve r v w)
