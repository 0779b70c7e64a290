-- ===== src/Config/Sweep.antt =====
-- A visit of the entries of a map, in some order: what becomes of a field does not depend on the order.
use mathlib.Core.Path.{fun_ext}
use networkdisk.Prelude.{
  ◌≡◌, refl, ◌∙◌, Bool, true, false, not, ◌&&◌, none, some, List, [], ◌∷◌, In, In-cons, here, there,
  arith, if◌then◌else◌, Bool-cases, Option-cases, inl, inr, first, first-some, first-none,
}
use networkdisk.Text.{Text, text_eq→eq, text_eq_refl}
use networkdisk.Config.{Settings, is_at, changed}
use networkdisk.Config.Tables.{Value}

abbrev pub change_at : Text × Text → (Value → Value) → Settings → Settings
change_at p g c = λ s f. if is_at p s f then changed g (c s f) else c s f

is_at_refl : (p : Text × Text) → is_at p p.0 p.1 ≡ true
is_at_refl p = let a = text_eq_refl p.0 in let b = text_eq_refl p.1 in ground arith

pub is_at→eq : (p : Text × Text) (s f : Text) → is_at p s f ≡ true → (p.0 ≡ s) × (p.1 ≡ f)
is_at→eq p s f h = (text_eq→eq p.0 s (ground arith), text_eq→eq p.1 f (ground arith))

both_at :
    (p r : Text × Text) (s f : Text)
    → is_at p s f ≡ true
    → is_at r s f ≡ true
    → is_at p r.0 r.1 ≡ true
both_at p r s f h k = let b = is_at→eq r s f k in rw (b.0, b.1) h

module _ {E : Type 0} (address : E → Text × Text) where
  -- No two entries are of one field.
  abbrev pub Apart : List E → Type 0
  Apart [] = Unit
  Apart (e ∷ es) =
      ((x : E) → In x es → is_at (address e) (address x).0 (address x).1 ≡ false) × Apart es

  -- An order in which the entries of a map may be visited.
  pub record IsOrder (xs ys : List E) : Type 0 where
    pub from : (e : E) → In e xs → In e ys
    pub to : (e : E) → In e ys → In e xs
    pub apart : Apart xs

  none_at : Text × Text → List E → Bool
  none_at p [] = true
  none_at p (e ∷ es) = not (is_at p (address e).0 (address e).1) && none_at p es

  -- The test of a list of entries.
  unfoldable pub are_apart : List E → Bool
  unfolding none_at
  are_apart [] = true
  are_apart (e ∷ es) = none_at (address e) es && are_apart es

  none_at-In :
      (p : Text × Text) (es : List E) (x : E)
      → none_at p es ≡ true
      → In x es
      → is_at p (address x).0 (address x).1 ≡ false
  unfolding none_at
  none_at-In p [] x h m = absurd (elim m [ ])
  none_at-In p (e ∷ es) x h m = elim (In-cons m) [
    | inl q ↦ rw q (ground arith)
    | inr n ↦ none_at-In p es x (ground arith) n
  ]

  pub are_apart-Apart : (es : List E) → are_apart es ≡ true → Apart es
  unfolding are_apart
  are_apart-Apart [] h = tt
  are_apart-Apart (e ∷ es) h =
      (λ x m. none_at-In (address e) es x (ground arith) m, are_apart-Apart es (ground arith))

  module _ (g : E → Value → Value) where
    unfoldable pub sweep : List E → Settings → Settings
    sweep [] c = c
    sweep (e ∷ es) c = sweep es (change_at (address e) (g e) c)

    sweep_miss :
        (es : List E) (c : Settings) (s f : Text)
        → ((e : E) → In e es → is_at (address e) s f ≡ false)
        → sweep es c s f ≡ c s f
    unfolding sweep
    sweep_miss [] c s f h = refl
    sweep_miss (e ∷ es) c s f h =
        sweep_miss es (change_at (address e) (g e) c) s f (λ x m. h x (there m))
        ∙ rw (h e (here refl)) refl

    sweep_hit :
        (es : List E) (e : E) (c : Settings) (s f : Text)
        → Apart es
        → In e es
        → is_at (address e) s f ≡ true
        → sweep es c s f ≡ changed (g e) (c s f)
    unfolding sweep
    sweep_hit [] e c s f a m h = absurd (elim m [ ])
    sweep_hit (x ∷ es) e c s f a m h = elim (In-cons m) [
      | inl q ↦
          let here_at : is_at (address x) s f ≡ true = rw q at h in
          sweep_miss es (change_at (address x) (g x) c) s f (λ y n.
            elim (Bool-cases (is_at (address y) s f)) [
              | inr z ↦ z
              | inl z ↦ absurd (
                  let k = both_at (address x) (address y) s f here_at z in
                  let l = a.0 y n in ground arith)
            ])
          ∙ rw (here_at, q) refl
      | inr n ↦
          let z : is_at (address x) s f ≡ false = elim (Bool-cases (is_at (address x) s f)) [
            | inr z ↦ z
            | inl z ↦
                absurd (
                  let k = both_at (address x) (address e) s f z h in
                  let l = a.0 e n in ground arith)
          ] in
          sweep_hit es e (change_at (address x) (g x) c) s f a.1 n h ∙ rw z refl
    ]

    -- The entry of a field, in the order of the table.
    abbrev pub by_table : List E → Settings → Settings
    by_table ys c s f = elim (first (λ e. is_at (address e) s f) ys) [
      | none ↦ c s f
      | some e ↦ changed (g e) (c s f)
    ]

    sweep_at :
        (xs ys : List E) (c : Settings) (s f : Text)
        → IsOrder xs ys
        → sweep xs c s f ≡ by_table ys c s f
    sweep_at xs ys c s f o = elim (Option-cases (first (λ e. is_at (address e) s f) ys)) [
      | inl q ↦
          rw (by_table, q)
            (sweep_miss xs c s f
              (λ e m. first-none (λ e. is_at (address e) s f) ys e q (o.from e m)))
      | inr (e, q) ↦
          let r = first-some (λ e. is_at (address e) s f) ys e q in
          rw (by_table, q) (sweep_hit xs e c s f o.apart (o.to e r.0) r.1)
    ]

    -- The result of a visit in any order is what the table says of each field.
    pub sweep-IsOrder : (xs ys : List E) (c : Settings) → IsOrder xs ys → sweep xs c ≡ by_table ys c
    sweep-IsOrder xs ys c o = fun_ext (λ s. fun_ext (λ f. sweep_at xs ys c s f o))
