-- ===== src/Uploads/Pieces.antt =====
-- The pieces of a content, and what joins them.
use native.Mathlib.Nat.{mod-lt, div-add-mod, zero-add}
use networkdisk.Prelude.{
  ℕ, zero, suc, ◌+◌, ◌-◌, ◌*◌, ◌/◌, ◌≤◌, ◌<◌, ◌≡◌, refl, sym, ap, ◌∙◌, [], ◌∷◌, ◌++◌, arith, length,
}
use networkdisk.Text.{Text, leading}

-- What a reader that skips `n` bytes reads.
abbrev pub dropped : ℕ → Text → Text
dropped zero t = t
dropped (suc n) [] = []
dropped (suc n) (b ∷ t) = dropped n t

dropped_nil : (n : ℕ) → dropped n [] ≡ []
dropped_nil zero = refl
dropped_nil (suc n) = refl

-- The piece of number `k`.
abbrev pub piece : ℕ → Text → ℕ → Text
piece size t k = leading size (dropped (k * size) t)

pub leading_twice : (n : ℕ) (t : Text) → leading n (leading n t) ≡ leading n t
leading_twice n [] = refl
leading_twice zero (b ∷ t) = refl
leading_twice (suc n) (b ∷ t) = ap (λ s. b ∷ s) (leading_twice n t)

leading-all : (n : ℕ) (t : Text) → length t ≤ n → leading n t ≡ t
leading-all n [] h = refl
leading-all zero (b ∷ t) h = ground arith
leading-all (suc n) (b ∷ t) h = ap (λ s. b ∷ s) (leading-all n t (ground arith))

leading-zero : (t : Text) → leading zero t ≡ []
leading-zero [] = refl
leading-zero (b ∷ t) = refl

leading_split : (m n : ℕ) (t : Text) → leading (m + n) t ≡ leading m t ++ leading n (dropped m t)
leading_split zero n t = rw (zero-add n) (ap (λ s. s ++ leading n t) (sym (leading-zero t)))
leading_split (suc m) n [] = refl
leading_split (suc m) n (b ∷ t) =
    let e : suc m + n ≡ suc (m + n) = omega arith in rw e (ap (λ s. b ∷ s) (leading_split m n t))

dropped-dropped : (m n : ℕ) (t : Text) → dropped n (dropped m t) ≡ dropped (m + n) t
dropped-dropped zero n t = rw (zero-add n) refl
dropped-dropped (suc m) n [] = rw (dropped_nil n, dropped_nil (suc m + n)) refl
dropped-dropped (suc m) n (b ∷ t) =
    let e : suc m + n ≡ suc (m + n) = omega arith in rw e (dropped-dropped m n t)

-- The pieces from number `k` on, `rounds` of them.
abbrev pub joined : ℕ → Text → ℕ → ℕ → Text
joined size t k zero = []
joined size t k (suc rounds) = piece size t k ++ joined size t (k + 1) rounds

joined_lem :
    (size : ℕ) (t : Text) (k rounds : ℕ)
    → joined size t k rounds ≡ leading (rounds * size) (dropped (k * size) t)
joined_lem size t k zero =
    let e : zero * size ≡ zero = omega arith in rw e (sym (leading-zero (dropped (k * size) t)))
joined_lem size t k (suc rounds) =
    let e : suc rounds * size ≡ size + rounds * size = omega arith in
    let d : (k + 1) * size ≡ k * size + size = omega arith in
    let r = joined_lem size t (k + 1) rounds in
    ap (λ s. piece size t k ++ s) (rw (d, sym (dropped-dropped (k * size) size t)) at r)
    ∙ sym (rw e (leading_split size (rounds * size) (dropped (k * size) t)))

chunks_enough : (total size : ℕ) → zero < size → total ≤ (total + size - 1) / size * size
chunks_enough total size h =
    let a = mod-lt (total + size - 1) h in
    let b = div-add-mod (total + size - 1) size in omega (arith, a, b, h)

-- The pieces of a content, as many as it takes, make the content.
pub joined-all :
    (size : ℕ) (t : Text) → zero < size → joined size t zero ((length t + size - 1) / size) ≡ t
joined-all size t h =
    let e : zero * size ≡ zero = omega arith in
    joined_lem size t zero ((length t + size - 1) / size)
    ∙ ap (λ n. leading ((length t + size - 1) / size * size) (dropped n t)) e
    ∙ leading-all ((length t + size - 1) / size * size) t (chunks_enough (length t) size h)
