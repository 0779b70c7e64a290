-- ===== src/Sessions/Refresh.antt =====
-- What one call of `RefreshAccessToken` does to the tokens.
use networkdisk.Prelude.{
  ℕ, ◌+◌, ◌≡◌, ap, ◌∙◌, ◌⊎◌, inl, inr, Bool, true, false, not, ◌&&◌, Option, none, some, ◌∷◌, arith,
  ◌==◌, ltb, Option-cases, first, any,
}
use networkdisk.Text.{Text}
use networkdisk.Model.{RefreshToken, User, Db, Env, World}
use networkdisk.Exec.{Error, ok, err, token_revoked, Result-cases, tick, draw}
use networkdisk.Store.Users.{
  update_tokens, new_token, refresh_token_by_hash, revoke_token_family, revoke_refresh_token,
  user_by_id, create_refresh_token,
}
use networkdisk.Sessions.{
  TokenPair, refresh_access_token, rotate, keep_token, generate_access_token,
}

-- Is the row `rt` and not revoked yet?
abbrev pub is_live_row : RefreshToken → RefreshToken → Bool
is_live_row rt t = t.id == rt.id && not t.revoked

-- The tokens after the old one is revoked and a new one, with another hash, is kept.
pub record Rotated (v : Env) (rt : RefreshToken) (d d' : Db) : Type 0 where
  pub user : ℕ
  pub fresh : Text
  pub exp : ℕ
  pub clear :
      any (λ t. v.same_text t.token_hash fresh) (update_tokens (is_live_row rt) d).tokens ≡ false
  pub now_kept :
      d'.tokens
      ≡ new_token user fresh rt.family_id exp d ∷ (update_tokens (is_live_row rt) d).tokens

pub keep_ok :
    (u : ℕ) (t fam : Text) (v : Env) (w : World) (r : RefreshToken)
    → (keep_token u t fam v w).0 ≡ ok r
    → (any (λ s. v.same_text s.token_hash (v.sha256_hex t)) w.db.tokens ≡ false)
      × ((keep_token u t fam v w).1.db.tokens
          ≡ new_token u (v.sha256_hex t) fam (w.now + v.cfg.refresh_expire) w.db ∷ w.db.tokens)
unfolding keep_token create_refresh_token
keep_ok u t fam v w r q = ground arith

module _ (rt : RefreshToken) (v : Env) (w : World) where
  pub rotate_err-db : (e : Error) → (rotate rt v w).0 ≡ err e → (rotate rt v w).1.db ≡ w.db
  unfolding rotate
  rotate_err-db e h = ground arith

  -- The state in which the new token is kept.
  abbrev at_keep : World
  at_keep = record w {
    db = update_tokens (is_live_row rt) w.db;
    calls = w.calls + 1 + 1 + 1;
    draws = w.draws + 1;
  }

  rotate_drawn :
      (x : User) (t : Text)
      → first (λ u. u.id == rt.user_id) w.db.users ≡ some x
      → w.random w.draws ≡ some t
      → (r : User × Text) → (rotate rt v w).0 ≡ ok r
      → (k : RefreshToken) × ((keep_token x.id t rt.family_id v at_keep).0 ≡ ok k)
        × ((rotate rt v w).1.db ≡ (keep_token x.id t rt.family_id v at_keep).1.db)
  unfolding rotate revoke_refresh_token user_by_id draw
  rotate_drawn x t f q r h = elim (Result-cases (keep_token x.id t rt.family_id v at_keep).0) [
    | inl (k, e) ↦ (k, e, ground arith)
    | inr (k, e) ↦ absurd (ground arith)
  ]

  rotate_undrawn : w.random w.draws ≡ none → (r : User × Text) → (rotate rt v w).0 ≡ ok r → ⊥
  unfolding rotate keep_token revoke_refresh_token user_by_id create_refresh_token draw
  rotate_undrawn q r h = ground arith

  rotate_unknown :
      first (λ u. u.id == rt.user_id) w.db.users ≡ none
      → (r : User × Text) → (rotate rt v w).0 ≡ ok r
      → ⊥
  unfolding rotate keep_token revoke_refresh_token user_by_id create_refresh_token draw
  rotate_unknown q r h = ground arith

  pub rotate-Rotated :
      (r : User × Text) → (rotate rt v w).0 ≡ ok r → Rotated v rt w.db (rotate rt v w).1.db
  rotate-Rotated r h = elim (Option-cases (w.random w.draws)) [
    | inl q ↦ absurd (rotate_undrawn q r h)
    | inr (t, q) ↦ elim (Option-cases (first (λ u. u.id == rt.user_id) w.db.users)) [
      | inl f ↦ absurd (rotate_unknown f r h)
      | inr (x, f) ↦
          let k = rotate_drawn x t f q r h in
          let kept = keep_ok x.id t rt.family_id v at_keep k.0 k.1 in
          record {
            user = x.id;
            fresh = v.sha256_hex t;
            exp = w.now + v.cfg.refresh_expire;
            clear = kept.0;
            now_kept = ap (λ (d : Db). d.tokens) k.2 ∙ kept.1;
          }
    ]
  ]

module _ (v : Env) (w : World) (t : Text) where
  abbrev pub presented : Text
  presented = v.sha256_hex t

  abbrev pub row : Option RefreshToken
  row = first (λ s. v.same_text s.token_hash presented) w.db.tokens

  -- A revoked token that is presented again: its family is revoked, unless the call fails.
  pub refresh_revoked :
      (rt : RefreshToken)
      → row ≡ some rt
      → rt.revoked ≡ true
      → ((refresh_access_token t v w).0 ≡ err token_revoked)
      → ((refresh_access_token t v w).1.db
          ≡ update_tokens (λ s. v.same_text s.family_id rt.family_id) w.db)
  unfolding refresh_access_token refresh_token_by_hash revoke_token_family
  refresh_revoked rt f h e = ground arith

  pub refresh_revoked_cases :
      (rt : RefreshToken)
      → row ≡ some rt
      → rt.revoked ≡ true
      → ((refresh_access_token t v w).1.db ≡ w.db)
        ⊎ ((refresh_access_token t v w).1.db
            ≡ update_tokens (λ s. v.same_text s.family_id rt.family_id) w.db)
  unfolding refresh_access_token refresh_token_by_hash revoke_token_family
  refresh_revoked_cases rt f h = ground arith

  pub refresh_revoked_fails :
      (rt : RefreshToken) (r : User × TokenPair)
      → row ≡ some rt
      → rt.revoked ≡ true
      → (refresh_access_token t v w).0 ≡ ok r
      → ⊥
  unfolding refresh_access_token refresh_token_by_hash revoke_token_family
  refresh_revoked_fails rt r f h e = ground arith

  pub refresh_absent_db : row ≡ none → (refresh_access_token t v w).1.db ≡ w.db
  unfolding refresh_access_token refresh_token_by_hash
  refresh_absent_db f = ground arith

  pub refresh_absent :
      (r : User × TokenPair) → row ≡ none → (refresh_access_token t v w).0 ≡ ok r → ⊥
  unfolding refresh_access_token refresh_token_by_hash
  refresh_absent r f e = ground arith

  pub refresh_rotated :
      (rt : RefreshToken) (q : User × Text)
      → row ≡ some rt
      → rt.revoked ≡ false
      → (rotate rt v (tick w)).0 ≡ ok q
      → ((refresh_access_token t v w).1.db ≡ w.db)
        ⊎ ((refresh_access_token t v w).1.db ≡ (rotate rt v (tick w)).1.db)
  unfolding refresh_access_token refresh_token_by_hash generate_access_token draw
  refresh_rotated rt q f h e = ground arith

  pub refresh_not_rotated :
      (rt : RefreshToken) (e : Error)
      → row ≡ some rt
      → rt.revoked ≡ false
      → (rotate rt v (tick w)).0 ≡ err e
      → (refresh_access_token t v w).1.db ≡ w.db
  unfolding refresh_access_token refresh_token_by_hash
  refresh_not_rotated rt e f h q = ground (arith, rotate_err-db rt v (tick w) e)

  -- A refresh that succeeds has rotated the token, which was not revoked nor expired.
  pub refresh_ok :
      (rt : RefreshToken) (r : User × TokenPair)
      → row ≡ some rt
      → (refresh_access_token t v w).0 ≡ ok r
      → (rt.revoked ≡ false)
        × (ltb rt.expires_at w.now ≡ false)
        × (q : User × Text) × ((rotate rt v (tick w)).0 ≡ ok q)
        × ((refresh_access_token t v w).1.db ≡ (rotate rt v (tick w)).1.db)
  unfolding refresh_access_token refresh_token_by_hash generate_access_token draw
  refresh_ok rt r f e = elim (Result-cases (rotate rt v (tick w)).0) [
    | inl (q, h) ↦ (ground arith, ground arith, q, h, ground arith)
    | inr (q, h) ↦ absurd (ground arith)
  ]
