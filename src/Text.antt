-- ===== src/Text.antt =====
-- Go strings as lists of bytes, and the functions of Go's `strings`, `fmt` and `path/filepath` that
-- internal/service/file.go applies to file names.
use Prim.Native.Char.{code}
use Prim.Native.String.{String}
use mathlib.Core.List.{reverse}
use networkdisk.Prelude.{
  ℕ, zero, suc, ◌+◌, ◌/◌, ◌%◌, ◌≡◌, refl, Bool, true, false, ◌&&◌, Option, none, some, List, [],
  ◌∷◌, ◌++◌, arith, ltb, ◌==◌, if◌then◌else◌, length,
}

abbrev pub Text : Type 0
Text = List ℕ

-- An ASCII literal.
abbrev pub bytes : String → Text
bytes String.[] = []
bytes (String.◌∷◌ c s) = code c ∷ bytes s

-- `==` on strings.
unfoldable pub text_eq : Text → Text → Bool
text_eq [] [] = true
text_eq (a ∷ s) (b ∷ t) = (a == b) && text_eq s t
text_eq _ _ = false

pub text_eq→eq : (s t : Text) → text_eq s t ≡ true → s ≡ t
unfolding text_eq
text_eq→eq [] [] h = refl
text_eq→eq [] (b ∷ t) h = ground arith
text_eq→eq (a ∷ s) [] h = ground arith
text_eq→eq (a ∷ s) (b ∷ t) h = ground (arith, text_eq→eq s t)

pub text_eq_refl : (s : Text) → text_eq s s ≡ true
unfolding text_eq
text_eq_refl [] = refl
text_eq_refl (a ∷ s) = ground (arith, text_eq_refl s)

-- `s[:n]`, or all of it.
abbrev pub leading : ℕ → Text → Text
leading n [] = []
leading zero (b ∷ t) = []
leading (suc n) (b ∷ t) = b ∷ leading n t

-- What is left after a prefix.
unfoldable pub strip_prefix : Text → Text → Option Text
strip_prefix [] s = some s
strip_prefix (a ∷ p) [] = none
strip_prefix (a ∷ p) (b ∷ s) = let rest = strip_prefix p s in if a == b then rest else none

-- The UTF-8 forms of the runes for which `unicode.IsSpace` holds.
abbrev pub space_runes : List Text
space_runes =
    (9 ∷ [])
    ∷ (10 ∷ [])
    ∷ (11 ∷ [])
    ∷ (12 ∷ [])
    ∷ (13 ∷ [])
    ∷ (32 ∷ [])
    ∷ (0xC2 ∷ 0x85 ∷ [])
    ∷ (0xC2 ∷ 0xA0 ∷ [])
    ∷ (0xE1 ∷ 0x9A ∷ 0x80 ∷ [])
    ∷ (0xE2 ∷ 0x80 ∷ 0x80 ∷ [])
    ∷ (0xE2 ∷ 0x80 ∷ 0x81 ∷ [])
    ∷ (0xE2 ∷ 0x80 ∷ 0x82 ∷ [])
    ∷ (0xE2 ∷ 0x80 ∷ 0x83 ∷ [])
    ∷ (0xE2 ∷ 0x80 ∷ 0x84 ∷ [])
    ∷ (0xE2 ∷ 0x80 ∷ 0x85 ∷ [])
    ∷ (0xE2 ∷ 0x80 ∷ 0x86 ∷ [])
    ∷ (0xE2 ∷ 0x80 ∷ 0x87 ∷ [])
    ∷ (0xE2 ∷ 0x80 ∷ 0x88 ∷ [])
    ∷ (0xE2 ∷ 0x80 ∷ 0x89 ∷ [])
    ∷ (0xE2 ∷ 0x80 ∷ 0x8A ∷ [])
    ∷ (0xE2 ∷ 0x80 ∷ 0xA8 ∷ [])
    ∷ (0xE2 ∷ 0x80 ∷ 0xA9 ∷ [])
    ∷ (0xE2 ∷ 0x80 ∷ 0xAF ∷ [])
    ∷ (0xE2 ∷ 0x81 ∷ 0x9F ∷ [])
    ∷ (0xE3 ∷ 0x80 ∷ 0x80 ∷ [])
    ∷ []

strip_any : List Text → Text → Option Text
strip_any [] s = none
strip_any (p ∷ ps) s =
    let rest = strip_any ps s in elim (strip_prefix p s) [ some t ↦ some t | none ↦ rest ]

-- One rune goes at a time, so a text is stripped at most as often as it has bytes.
strip_all : ℕ → List Text → Text → Text
strip_all zero ps s = s
strip_all (suc n) ps s = elim (strip_any ps s) [ some t ↦ strip_all n ps t | none ↦ s ]

reverse_all : List Text → List Text
reverse_all [] = []
reverse_all (p ∷ ps) = reverse p ∷ reverse_all ps

-- `strings.TrimSpace`.
unfoldable pub trim_space : Text → Text
unfolding strip_prefix strip_any strip_all reverse_all
trim_space s =
    let t = strip_all (length s) space_runes s in
    reverse (strip_all (length t) (reverse_all space_runes) (reverse t))

-- `strings.TrimSuffix`.
unfoldable pub trim_suffix : Text → Text → Text
unfolding strip_prefix
trim_suffix s t = elim (strip_prefix (reverse t) (reverse s)) [ some r ↦ reverse r | none ↦ s ]

-- From the last dot of the last path element, read from the end of the name.
ext_from : Text → Text → Text
ext_from acc [] = []
ext_from acc (c ∷ s) =
    let rest = ext_from (c ∷ acc) s in if c == 47 then [] else if c == 46 then c ∷ acc else rest

-- `filepath.Ext`.
unfoldable pub ext : Text → Text
unfolding ext_from
ext s = ext_from [] (reverse s)

unfoldable pub digits_from : ℕ → ℕ → Text → Text
digits_from zero n acc = acc
digits_from (suc k) n acc =
    let rest = digits_from k (n / 10) ((48 + n % 10) ∷ acc) in
    if ltb n 10 then (48 + n) ∷ acc else rest

-- `%d`: a number has at most as many digits as it counts, plus one.
unfoldable pub decimal : ℕ → Text
unfolding digits_from
decimal n = digits_from (n + 1) n []

-- `fmt.Sprintf("%s (%d)%s", base, i, ext)`.
unfoldable pub numbered : Text → ℕ → Text → Text
unfolding decimal
numbered base i e = base ++ (bytes " (" ++ (decimal i ++ (bytes ")" ++ e)))

trim_test : trim_space (bytes "  a b\t\n") ≡ bytes "a b"
unfolding trim_space
trim_test = refl

ext_test : ext (bytes "a.b/c.tar.gz") ≡ bytes ".gz"
unfolding ext
ext_test = refl

ext_test_dir : ext (bytes "a.b/c") ≡ []
unfolding ext
ext_test_dir = refl

numbered_test : numbered (bytes "report") 120 (bytes ".txt") ≡ bytes "report (120).txt"
unfolding numbered
numbered_test = refl

suffix_test : trim_suffix (bytes "report.txt") (bytes ".txt") ≡ bytes "report"
unfolding trim_suffix
suffix_test = refl
