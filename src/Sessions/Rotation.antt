-- ===== src/Sessions/Rotation.antt =====
-- The life of a refresh token: what a call may do to the table `refresh_tokens`.
use networkdisk.Prelude.{
  ℕ, ◌≡◌, sym, ap, ◌∙◌, ◌⊎◌, inl, inr, Bool, true, false, List, ◌∷◌, In, there, arith, Bool-cases,
  In-update, In-cons, update-In, any-false, any, if◌then◌else◌,
}
use networkdisk.Text.{Text}
use networkdisk.Model.{RefreshToken, Db, Env}
use networkdisk.Store.Users.{update_tokens, new_token}

-- The collation is an equivalence.
pub record IsTextEquality (v : Env) : Type 0 where
  pub same_sym : (a b : Text) → v.same_text a b ≡ true → v.same_text b a ≡ true
  pub same_trans :
      (a b c : Text) → v.same_text a b ≡ true → v.same_text b c ≡ true → v.same_text a c ≡ true

-- Tokens are revoked and never restored, and a new hash differs from all others.
pub data TokenChange (v : Env) (d d' : Db) : Type 0 where
  same : d'.tokens ≡ d.tokens → TokenChange v d d'
  revoke : (p : RefreshToken → Bool) → d'.tokens ≡ (update_tokens p d).tokens → TokenChange v d d'
  insert :
      (u : ℕ) (h fam : Text) (exp : ℕ)
      → any (λ t. v.same_text t.token_hash h) d.tokens ≡ false
      → d'.tokens ≡ new_token u h fam exp d ∷ d.tokens
      → TokenChange v d d'

-- The hash of a token names one row.
pub record HashesApart (v : Env) (d : Db) : Type 0 where
  pub apart :
      (s t : RefreshToken)
      → In s d.tokens
      → In t d.tokens
      → v.same_text s.token_hash t.token_hash ≡ true
      → s ≡ t

-- Every row with the hash is revoked, and there is one.
pub record Spent (v : Env) (h : Text) (d : Db) : Type 0 where
  pub witness : (t : RefreshToken) × In t d.tokens × (v.same_text t.token_hash h ≡ true)
  pub revoked :
      (t : RefreshToken) → In t d.tokens → v.same_text t.token_hash h ≡ true → t.revoked ≡ true

abbrev pub revoked_if : (RefreshToken → Bool) → RefreshToken → RefreshToken
revoked_if p t = if p t then record t { revoked = true } else t

pub revoked_if-hash :
    (p : RefreshToken → Bool) (t : RefreshToken) → (revoked_if p t).token_hash ≡ t.token_hash
revoked_if-hash p t = elim (Bool-cases (p t)) [ inl e ↦ rw e | inr e ↦ rw e ]

revoked_if-revoked :
    (p : RefreshToken → Bool) (t : RefreshToken)
    → t.revoked ≡ true
    → (revoked_if p t).revoked ≡ true
revoked_if-revoked p t h = elim (Bool-cases (p t)) [ inl e ↦ rw e | inr e ↦ rw e h ]

abbrev hash : RefreshToken → Text
hash t = t.token_hash

unlike :
    (v : Env) (k : Text) (t : RefreshToken) (ts : List RefreshToken)
    → any (λ t. v.same_text t.token_hash k) ts ≡ false
    → In t ts
    → v.same_text t.token_hash k ≡ true
    → ⊥
unlike v k t ts clear m h =
    let f : v.same_text t.token_hash k ≡ false =
      any-false (λ (t : RefreshToken). v.same_text t.token_hash k) ts t clear m in
    ground arith

pub TokenChange-Spent :
    (v : Env) (h : Text) {d d' : Db}
    → IsTextEquality v
    → TokenChange v d d'
    → Spent v h d
    → Spent v h d'
TokenChange-Spent v h c (same e) s = record { witness = rw e s.witness; revoked = rw e s.revoked }
TokenChange-Spent v h {d} c (revoke p e) s = record {
  witness =
      let t = s.witness in
      (
        revoked_if p t.0,
        rw e (update-In p (λ t. record t { revoked = true }) d.tokens t.0 t.1),
        rw (revoked_if-hash p t.0) t.2,
      );
  revoked = λ t m n.
      let r = In-update p (λ t. record t { revoked = true }) d.tokens t (rw e at m) in
      let q : t.token_hash ≡ r.0.token_hash = ap hash r.2 ∙ revoked_if-hash p r.0 in
      ap (λ (z : RefreshToken). z.revoked) r.2
      ∙ revoked_if-revoked p r.0 (s.revoked r.0 r.1 (rw q at n));
}
TokenChange-Spent v h {d} c (insert u k fam exp clear e) s = record {
  witness = let t = s.witness in (t.0, rw e (there t.1), t.2);
  revoked = λ t m n. elim (In-cons (rw e at m)) [
    | inl q ↦
        let o = s.witness in
        let n : v.same_text k h ≡ true = rw (ap hash q) at n in
        absurd (
          unlike v k (o.0) d.tokens clear o.1
            (c.same_trans (hash (o.0)) h k o.2 (c.same_sym k h n)))
    | inr old ↦ s.revoked t old n
  ];
}

pub TokenChange-HashesApart :
    (v : Env) {d d' : Db}
    → IsTextEquality v
    → TokenChange v d d'
    → HashesApart v d
    → HashesApart v d'
TokenChange-HashesApart v c (same e) a = record { apart = rw e a.apart }
TokenChange-HashesApart v {d} c (revoke p e) a = record {
  apart = λ s t m n h.
      let x = In-update p (λ t. record t { revoked = true }) d.tokens s (rw e at m) in
      let y = In-update p (λ t. record t { revoked = true }) d.tokens t (rw e at n) in
      let i : s.token_hash ≡ x.0.token_hash = ap hash x.2 ∙ revoked_if-hash p x.0 in
      let j : t.token_hash ≡ y.0.token_hash = ap hash y.2 ∙ revoked_if-hash p y.0 in
      x.2 ∙ ap (revoked_if p) (a.apart x.0 y.0 x.1 y.1 (rw (i, j) at h)) ∙ sym y.2;
}
TokenChange-HashesApart v {d} c (insert u k fam exp clear e) a = record {
  apart = λ s t m n h. apart_one s t (In-cons (rw e at m)) (In-cons (rw e at n)) h;
}
  where
    apart_one :
        (s t : RefreshToken)
        → (s ≡ new_token u k fam exp d) ⊎ In s d.tokens
        → (t ≡ new_token u k fam exp d) ⊎ In t d.tokens
        → v.same_text s.token_hash t.token_hash ≡ true
        → s ≡ t
    apart_one s t (inl p) (inl q) h = p ∙ sym q
    apart_one s t (inl p) (inr n) h =
        absurd (unlike v k t d.tokens clear n (c.same_sym k (hash t) (rw (ap hash p) at h)))
    apart_one s t (inr m) (inl q) h = absurd (unlike v k s d.tokens clear m (rw (ap hash q) at h))
    apart_one s t (inr m) (inr n) h = a.apart s t m n h

pub data TokenReach (v : Env) : Db → Db → Type 0 where
  done : {d d' : Db} → d' ≡ d → TokenReach v d d'
  step : {d e d' : Db} → TokenChange v d e → TokenReach v e d' → TokenReach v d d'

pub TokenReach-Spent :
    (v : Env) (h : Text) {d d' : Db}
    → IsTextEquality v
    → TokenReach v d d'
    → Spent v h d
    → Spent v h d'
TokenReach-Spent v h c (done e) s = rw e s
TokenReach-Spent v h c (step t r) s = TokenReach-Spent v h c r (TokenChange-Spent v h c t s)

pub TokenReach-HashesApart :
    (v : Env) {d d' : Db}
    → IsTextEquality v
    → TokenReach v d d'
    → HashesApart v d
    → HashesApart v d'
TokenReach-HashesApart v c (done e) a = rw e a
TokenReach-HashesApart v c (step t r) a =
    TokenReach-HashesApart v c r (TokenChange-HashesApart v c t a)
