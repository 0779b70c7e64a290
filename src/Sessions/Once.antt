-- ===== src/Sessions/Once.antt =====
-- A refresh token is good for one rotation.
use networkdisk.Prelude.{
  ◌≡◌, ap, ◌∙◌, inl, inr, true, some, List, [], ◌∷◌, In, In-update, update-In, arith, Bool-cases,
  Option-cases, first-some, if◌then◌else◌,
}
use networkdisk.Text.{Text}
use networkdisk.Model.{RefreshToken, User, Db, Env, World}
use networkdisk.Exec.{ok, err, token_revoked, tick}
use networkdisk.Store.Users.{update_tokens}
use networkdisk.Sessions.{TokenPair, rotate, refresh_access_token}
use networkdisk.Sessions.Rotation.{
  TokenChange, insert, revoked_if, revoked_if-hash, TokenChange-Spent, IsTextEquality, HashesApart,
  Spent, TokenReach-Spent,
}
use networkdisk.Sessions.Refresh.{
  Rotated, row, presented, is_live_row, rotate-Rotated, refresh_ok, refresh_absent, refresh_revoked,
  refresh_revoked_fails,
}
use networkdisk.Sessions.Requests.{Request, run, serve, serve-TokenReach}

-- If the answer to a revoked token is that it is revoked, every token of its family is revoked
-- afterwards.
pub refresh_access_token-revoked :
    (t : Text) (v : Env) (w : World) (rt : RefreshToken)
    → row v w t ≡ some rt
    → rt.revoked ≡ true
    → (refresh_access_token t v w).0 ≡ err token_revoked
    → (s : RefreshToken) → In s (refresh_access_token t v w).1.db.tokens
    → v.same_text s.family_id rt.family_id ≡ true
    → s.revoked ≡ true
refresh_access_token-revoked t v w rt f h e s m same =
    let d : (refresh_access_token t v w).1.db
        ≡ update_tokens (λ s. v.same_text s.family_id rt.family_id) w.db =
      refresh_revoked v w t rt f h e in
    let r =
      In-update (λ (s : RefreshToken). v.same_text s.family_id rt.family_id)
        (λ s. record s { revoked = true }) w.db.tokens s (rw d at m) in
    family_revoked v rt.family_id s r.0 r.2 same
  where
    family_revoked :
        (v : Env) (fam : Text) (s x : RefreshToken)
        → s ≡ (if v.same_text x.family_id fam then record x { revoked = true } else x)
        → v.same_text s.family_id fam ≡ true
        → s.revoked ≡ true
    family_revoked v fam s x q same = elim (Bool-cases (v.same_text x.family_id fam)) [
      | inl e ↦ ap (λ (z : RefreshToken). z.revoked) (rw e at q)
      | inr e ↦
          let k : s ≡ x = rw e at q in
          let n : v.same_text x.family_id fam ≡ true = rw k at same in absurd (ground arith)
    ]

live_row-revoked : (rt : RefreshToken) → (revoked_if (is_live_row rt) rt).revoked ≡ true
live_row-revoked rt = elim (Bool-cases rt.revoked) [ inl e ↦ ground arith | inr e ↦ ground arith ]

module _ (v : Env) (h : Text) (rt : RefreshToken) (d : Db) (c : IsTextEquality v)
    (a : HashesApart v d) (m : In rt d.tokens) (same : v.same_text rt.token_hash h ≡ true) where
  abbrev revoked_one : Db
  revoked_one = update_tokens (is_live_row rt) d

  only_row : (x : RefreshToken) → In x d.tokens → v.same_text x.token_hash h ≡ true → x ≡ rt
  only_row x n k =
      a.apart x rt n m
        (c.same_trans (x.token_hash) h (rt.token_hash) k (c.same_sym (rt.token_hash) h same))

  revoked_one-Spent : Spent v h revoked_one
  revoked_one-Spent = record {
    witness = (
      revoked_if (is_live_row rt) rt,
      update-In (is_live_row rt) (λ t. record t { revoked = true }) d.tokens rt m,
      rw (revoked_if-hash (is_live_row rt) rt) same,
    );
    revoked = λ t n k.
        let r = In-update (is_live_row rt) (λ t. record t { revoked = true }) d.tokens t n in
        let q : t.token_hash ≡ r.0.token_hash =
          ap (λ (z : RefreshToken). z.token_hash) r.2 ∙ revoked_if-hash (is_live_row rt) r.0 in
        let o : r.0 ≡ rt = only_row r.0 r.1 (rw q at k) in
        ap (λ (z : RefreshToken). z.revoked) (r.2 ∙ ap (revoked_if (is_live_row rt)) o)
        ∙ live_row-revoked rt;
  }

  Rotated-Spent : (d' : Db) → Rotated v rt d d' → Spent v h d'
  Rotated-Spent d' r =
      let new : TokenChange v revoked_one d' =
        insert r.user r.fresh rt.family_id r.exp r.clear r.now_kept in
      TokenChange-Spent v h c new revoked_one-Spent

-- A successful refresh leaves the presented token spent.
pub refresh_access_token-Spent :
    (t : Text) (v : Env) (w : World) (r : User × TokenPair)
    → IsTextEquality v
    → HashesApart v w.db
    → (refresh_access_token t v w).0 ≡ ok r
    → Spent v (presented v w t) (refresh_access_token t v w).1.db
refresh_access_token-Spent t v w r c a h = elim (Option-cases (row v w t)) [
  | inl f ↦ absurd (refresh_absent v w t r f h)
  | inr (rt, f) ↦
      let o = refresh_ok v w t rt r f h in
      let k = rotate-Rotated rt v (tick w) o.2 o.3 in
      let m =
        first-some (λ (s : RefreshToken). v.same_text s.token_hash (presented v w t)) w.db.tokens rt
          f in
      rw o.4 (Rotated-Spent v (presented v w t) rt w.db c a m.0 m.1 (rotate rt v (tick w)).1.db k)
]

-- A spent token is refused.
pub Spent-refused :
    (t : Text) (v : Env) (w : World) (r : User × TokenPair)
    → Spent v (presented v w t) w.db
    → (refresh_access_token t v w).0 ≡ ok r
    → ⊥
Spent-refused t v w r s h = elim (Option-cases (row v w t)) [
  | inl f ↦ refresh_absent v w t r f h
  | inr (rt, f) ↦
      let m =
        first-some (λ (s : RefreshToken). v.same_text s.token_hash (presented v w t)) w.db.tokens rt
          f in
      refresh_revoked_fails v w t rt r f (s.revoked rt m.0 m.1) h
]

run-Spent :
    (rs : List Request) (v : Env) (w : World) (h : Text)
    → IsTextEquality v
    → Spent v h w.db
    → Spent v h (run rs v w).db
unfolding run
run-Spent [] v w h c s = s
run-Spent (r ∷ rs) v w h c s =
    run-Spent rs v (serve r v w) h c (TokenReach-Spent v h c (serve-TokenReach r v w) s)

-- A refresh token that has been accepted once is not accepted again, whatever requests of whichever
-- users come in between, if the collation is an equivalence and at first no two rows share a hash.
pub refresh_access_token-once :
    (t : Text) (v : Env) (w : World) (r : User × TokenPair) (rs : List Request)
    (r' : User × TokenPair)
    → IsTextEquality v
    → HashesApart v w.db
    → (refresh_access_token t v w).0 ≡ ok r
    → ¬ ((refresh_access_token t v (run rs v (refresh_access_token t v w).1)).0 ≡ ok r')
refresh_access_token-once t v w r rs r' c a h =
    Spent-refused t v (run rs v (refresh_access_token t v w).1) r' (
      run-Spent rs v (refresh_access_token t v w).1 (v.sha256_hex t) c
        (refresh_access_token-Spent t v w r c a h))
