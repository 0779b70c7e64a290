-- ===== src/Shares/Verified.antt =====
-- Tokens of verification: what is signed is accepted until it expires.
use mathlib.Core.List.{append_assoc}
use networkdisk.Prelude.{
  ℕ, ◌+◌, ◌^◌, ◌<◌, ◌≡◌, refl, sym, false, some, [], ◌∷◌, ◌++◌, In, here, there, arith, ltb, ◌==◌,
  if◌then◌else◌,
}
use networkdisk.Text.{Text, text_eq_refl, decimal}
use networkdisk.Numbers.{parse_int-decimal, decimal-AllDigits}
use networkdisk.Model.{Env, World}
use networkdisk.Exec.{ok, err, verify_token_expired}
use networkdisk.Shares.{
  cut, split_three, payload, sign_verify_token, validate_verify_token, check_parts,
  verify_token_ttl,
}

-- A text without `|`.
abbrev pub Avoids : Text → Type 0
Avoids s = (b : ℕ) → In b s → (b == 124) ≡ false

cut_at : (s t : Text) → Avoids s → cut (s ++ (124 ∷ t)) ≡ some (s, t)
unfolding cut
cut_at [] t h = refl
cut_at (b ∷ s) t h =
    let x = h b (here refl) in let y = cut_at s t (λ c m. h c (there m)) in rw (x, y) refl

decimal-Avoids : (n : ℕ) → Avoids (decimal n)
decimal-Avoids n b m = let d = decimal-AllDigits n b m in ground (arith, d.1)

split_signed :
    (n : ℕ) (token sig : Text)
    → Avoids token
    → split_three (payload (decimal n) token ++ (124 ∷ sig)) ≡ some (decimal n, token, sig)
unfolding split_three
split_signed n token sig h =
    let a : payload (decimal n) token ++ (124 ∷ sig) ≡ decimal n ++ (124 ∷ (token ++ (124 ∷ sig))) =
      append_assoc (decimal n) (124 ∷ token) (124 ∷ sig) in
    let b = cut_at (decimal n) (token ++ (124 ∷ sig)) (decimal-Avoids n) in
    let c = cut_at token sig h in rw (a, b, c) refl

-- A token of verification that was signed for a share is accepted for that share up to and including
-- the second of its expiry, and refused as expired after it, if base64 gives back what it was given,
-- the share's token has no `|`, and the time fits.
pub validate-sign :
    (token signed : Text) (v : Env) (w w' : World)
    → ((t : Text) → v.base64_decode (v.base64_encode t) ≡ some t)
    → Avoids token
    → w.now + verify_token_ttl < 2 ^ 63
    → (sign_verify_token token v w).0 ≡ ok signed
    → (validate_verify_token token signed v w').0
      ≡ (if ltb (w.now + verify_token_ttl) w'.now then err verify_token_expired else ok tt)
unfolding sign_verify_token validate_verify_token check_parts
validate-sign token signed v w w' round h fits e =
    let p = payload (decimal (w.now + verify_token_ttl)) token in
    let s : signed ≡ v.base64_encode (p ++ (124 ∷ v.mac p)) = ground (arith, sym e) in
    let a = round (p ++ (124 ∷ v.mac p)) in
    let b = split_signed (w.now + verify_token_ttl) token (v.mac p) h in
    let c = parse_int-decimal (w.now + verify_token_ttl) fits in
    let d = text_eq_refl token in let f = text_eq_refl (v.mac p) in rw (s, a, b, c) (ground arith)
