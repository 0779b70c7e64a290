-- ===== src/Numbers.antt =====
-- `strconv.ParseInt` in base 10, and its round trip with `%d`.
use networkdisk.Prelude.{
  ℕ, zero, suc, ◌+◌, ◌-◌, ◌*◌, ◌/◌, ◌%◌, ◌^◌, ◌≤◌, ◌<◌, ◌≡◌, refl, ap, ◌∙◌, true, false, ◌&&◌,
  Option, none, some, [], ◌∷◌, In, In-cons, here, arith, ltb, leb, ◌==◌, if◌then◌else◌, Bool-cases,
  inl, inr,
}
use networkdisk.Prelude.Int.{ℤ, pos, sub_ℕ}
use networkdisk.Text.{Text, decimal, digits_from}

-- Digits only, at least one.
unfoldable pub digits : ℕ → Text → Option ℕ
digits n [] = some n
digits n (b ∷ s) =
    let rest = digits (n * 10 + (b - 48)) s in if leb 48 b && leb b 57 then rest else none

abbrev unsigned : Text → Option ℕ
unsigned [] = none
unsigned (b ∷ s) = digits 0 (b ∷ s)

abbrev in_range : ℕ → Option ℕ → Option ℕ
in_range max none = none
in_range max (some n) = if leb n max then some n else none

abbrev as_positive : Option ℕ → Option ℤ
as_positive none = none
as_positive (some n) = some (pos n)

abbrev as_negative : Option ℕ → Option ℤ
as_negative none = none
as_negative (some n) = some (sub_ℕ 0 n)

-- `strconv.ParseInt(s, 10, 64)`.
unfoldable pub parse_int : Text → Option ℤ
parse_int [] = none
parse_int (b ∷ s) =
    if b == 45
    then as_negative (in_range (2 ^ 63) (unsigned s))
    else as_positive (in_range (2 ^ 63 - 1) (if b == 43 then unsigned s else unsigned (b ∷ s)))

-- The bytes of the digits.
abbrev pub AllDigits : Text → Type 0
AllDigits s = (b : ℕ) → In b s → (48 ≤ b) × (b ≤ 57)

AllDigits-cons : (b : ℕ) (s : Text) → 48 ≤ b → b ≤ 57 → AllDigits s → AllDigits (b ∷ s)
AllDigits-cons b s l h d x m = elim (In-cons m) [
  | inl e ↦ (omega (arith, e, l), omega (arith, e, h))
  | inr n ↦ d x n
]

digits_from-AllDigits :
    (k n : ℕ) (acc : Text) → n < k → AllDigits acc → AllDigits (digits_from k n acc)
unfolding digits_from
digits_from-AllDigits zero n acc h d = absurd (omega (arith, h))
digits_from-AllDigits (suc k) n acc h d = elim (Bool-cases (ltb n 10)) [
  | inl e ↦ rw (digits_from, e) (AllDigits-cons (48 + n) acc (omega arith) (ground (arith, e)) d)
  | inr e ↦
      rw (digits_from, e)
        (digits_from-AllDigits k (n / 10) ((48 + n % 10) ∷ acc) (ground arith)
          (AllDigits-cons (48 + n % 10) acc (omega arith) (omega arith) d))
]

digits-cons :
    (n b : ℕ) (s : Text) → 48 ≤ b → b ≤ 57 → digits n (b ∷ s) ≡ digits (n * 10 + (b - 48)) s
unfolding digits
digits-cons n b s l h =
    let x : leb 48 b ≡ true = ground arith in
    let y : leb b 57 ≡ true = ground arith in rw (x, y) refl

digits-digits_from : (k n : ℕ) (acc : Text) → n < k → digits 0 (digits_from k n acc) ≡ digits n acc
unfolding digits_from
digits-digits_from zero n acc h = absurd (omega (arith, h))
digits-digits_from (suc k) n acc h = elim (Bool-cases (ltb n 10)) [
  | inl e ↦
      rw (digits_from, e)
        (digits-cons 0 (48 + n) acc (omega arith) (ground arith)
          ∙ ap (λ m. digits m acc) (omega arith))
  | inr e ↦
      let a : n / 10 < k = ground arith in
      rw (digits_from, e)
        (digits-digits_from k (n / 10) ((48 + n % 10) ∷ acc) a
          ∙ digits-cons (n / 10) (48 + n % 10) acc (omega arith) (omega arith)
          ∙ ap (λ m. digits m acc) (omega arith))
]

pub decimal-AllDigits : (n : ℕ) → AllDigits (decimal n)
unfolding decimal
decimal-AllDigits n = digits_from-AllDigits (n + 1) n [] (omega arith) (λ b m. absurd (elim m [ ]))

digits-decimal : (n : ℕ) → digits 0 (decimal n) ≡ some n
unfolding decimal digits
digits-decimal n = digits-digits_from (n + 1) n [] (omega arith)

digits_from-cons :
    (k n : ℕ) (acc : Text) → n < k → (b : ℕ) × (s : Text) × (digits_from k n acc ≡ b ∷ s)
unfolding digits_from
digits_from-cons zero n acc h = absurd (omega (arith, h))
digits_from-cons (suc k) n acc h = elim (Bool-cases (ltb n 10)) [
  | inl e ↦ (48 + n, acc, rw (digits_from, e) refl)
  | inr e ↦ rw (digits_from, e) (digits_from-cons k (n / 10) ((48 + n % 10) ∷ acc) (ground arith))
]

unsigned-decimal :
    (n : ℕ) (t : Text)
    → t ≡ decimal n
    → AllDigits t
    → parse_int t ≡ as_positive (in_range (2 ^ 63 - 1) (digits 0 t))
unfolding parse_int decimal
unsigned-decimal n [] e d =
    absurd (let r = digits_from-cons (n + 1) n [] (omega arith) in ground (arith, r.2))
unsigned-decimal n (b ∷ s) e d =
    let x = d b (here refl) in
    let y : (b == 45) ≡ false = ground (arith, x.0) in
    let z : (b == 43) ≡ false = ground (arith, x.0) in rw (y, z) refl

-- A number that fits is read back from its digits.
pub parse_int-decimal : (n : ℕ) → n < 2 ^ 63 → parse_int (decimal n) ≡ some (pos n)
parse_int-decimal n h =
    let r : leb n (2 ^ 63 - 1) ≡ true = ground (arith, h) in
    unsigned-decimal n (decimal n) refl (decimal-AllDigits n)
    ∙ ap (λ o. as_positive (in_range (2 ^ 63 - 1) o)) (digits-decimal n)
    ∙ rw r refl
