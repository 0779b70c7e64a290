-- ===== src/Prelude/Laws.antt =====
-- The laws of the list operations by which the tables are read and written.
use mathlib.Core.Path.{◌≡◌, refl, sym}
use mathlib.Core.Bool.{Bool, true, false}
use mathlib.Core.Logic.{◌⊎◌, inl, inr}
use mathlib.Core.Option.{none, some}
use mathlib.Core.List.{List, [], ◌∷◌, ◌++◌}
use native.Mathlib.Omega.{arith}
use Prim.Native.Nat.{ℕ}
use networkdisk.Prelude.Tests.{if◌then◌else◌, ◌==◌, Bool-cases}
use networkdisk.Prelude.Lists.{select, first, update, any, In, here, there, contains}

module _ {ℓ} {A : Type ℓ} where
  pub first-some :
      (p : A → Bool) (xs : List A) (x : A) → first p xs ≡ some x → In x xs × (p x ≡ true)
  unfolding first
  first-some p [] x h = cc
  first-some p (y ∷ ys) x h = elim (Bool-cases (p y)) [
    | inl e ↦ let q : y ≡ x = ground arith in (here (sym q), rw (← q) e)
    | inr e ↦ let r = first-some p ys x (ground arith) in (there r.0, r.1)
  ]

  pub first-none : (p : A → Bool) (xs : List A) (x : A) → first p xs ≡ none → In x xs → p x ≡ false
  unfolding first
  first-none p [] x h m = elim m [ ]
  first-none p (y ∷ ys) x h (here e) = elim (Bool-cases (p y)) [
    | inl t ↦ ground arith
    | inr t ↦ rw e t
  ]
  first-none p (y ∷ ys) x h (there m) = first-none p ys x (ground arith) m

  pub any-false : (p : A → Bool) (xs : List A) (x : A) → any p xs ≡ false → In x xs → p x ≡ false
  unfolding any
  any-false p [] x h m = elim m [ ]
  any-false p (y ∷ ys) x h (here e) = rw e (ground arith)
  any-false p (y ∷ ys) x h (there m) = any-false p ys x (ground arith) m

  pub any-true : (p : A → Bool) (xs : List A) → any p xs ≡ true → (x : A) × In x xs × (p x ≡ true)
  unfolding any
  any-true p [] h = cc
  any-true p (y ∷ ys) h = elim (Bool-cases (p y)) [
    | inl e ↦ (y, here refl, e)
    | inr e ↦ let r = any-true p ys (ground arith) in (r.0, there r.1, r.2)
  ]

  pub any-In : (p : A → Bool) (xs : List A) (x : A) → In x xs → p x ≡ true → any p xs ≡ true
  unfolding any
  any-In p [] x m h = elim m [ ]
  any-In p (y ∷ ys) x (here e) h = let q : p y ≡ true = rw (← e) h in ground arith
  any-In p (y ∷ ys) x (there m) h = ground (arith, any-In p ys x m h)

  pub In-update :
      (p : A → Bool) (f : A → A) (xs : List A) (y : A)
      → In y (update p f xs)
      → (x : A) × In x xs × (y ≡ (if p x then f x else x))
  unfolding update
  In-update p f [] y m = elim m [ ]
  In-update p f (x ∷ xs) y (here e) = (x, here refl, e)
  In-update p f (x ∷ xs) y (there m) = let r = In-update p f xs y m in (r.0, there r.1, r.2)

  pub update-In :
      (p : A → Bool) (f : A → A) (xs : List A) (x : A)
      → In x xs
      → In (if p x then f x else x) (update p f xs)
  unfolding update
  update-In p f [] x m = elim m [ ]
  update-In p f (y ∷ ys) x (here e) = here (rw e)
  update-In p f (y ∷ ys) x (there m) = there (update-In p f ys x m)

  pub In-cons : {x y : A} {ys : List A} → In x (y ∷ ys) → (x ≡ y) ⊎ In x ys
  In-cons (here e) = inl e
  In-cons (there m) = inr m

  pub In-select : (p : A → Bool) (xs : List A) (x : A) → In x (select p xs) → In x xs × (p x ≡ true)
  unfolding select
  In-select p [] x m = elim m [ ]
  In-select p (y ∷ ys) x m = elim (Bool-cases (p y)) [
    | inl e ↦ elim (In-cons (rw (e, select) at m)) [
      | inl q ↦ (here q, rw q e)
      | inr n ↦ let r = In-select p ys x n in (there r.0, r.1)
    ]
    | inr e ↦ let r = In-select p ys x (rw (e, select) at m) in (there r.0, r.1)
  ]

  pub select-In : (p : A → Bool) (xs : List A) (x : A) → In x xs → p x ≡ true → In x (select p xs)
  unfolding select
  select-In p [] x m h = elim m [ ]
  select-In p (y ∷ ys) x (here e) h = let q : p y ≡ true = rw (← e) h in rw (q, select) (here e)
  select-In p (y ∷ ys) x (there m) h = elim (Bool-cases (p y)) [
    | inl e ↦ rw (e, select) (there (select-In p ys x m h))
    | inr e ↦ rw (e, select) (select-In p ys x m h)
  ]

  -- An update that only touches rows outside a selection leaves the selection alone.
  pub select-update_disjoint :
      (q p : A → Bool) (f : A → A) (xs : List A)
      → ((x : A) → In x xs → p x ≡ true → (q x ≡ false) × (q (f x) ≡ false))
      → select q (update p f xs) ≡ select q xs
  unfolding select update
  select-update_disjoint q p f [] h = refl
  select-update_disjoint q p f (x ∷ xs) h = elim (Bool-cases (p x)) [
    | inl e ↦
        let r = h x (here refl) e in
        rw (e, r.0, r.1) (select-update_disjoint q p f xs (λ y m. h y (there m)))
    | inr e ↦ rw (e, select-update_disjoint q p f xs (λ y m. h y (there m)))
  ]

  pub In-append : {x : A} (xs ys : List A) → In x (xs ++ ys) → In x xs ⊎ In x ys
  In-append [] ys m = inr m
  In-append (y ∷ xs) ys (here e) = inl (here e)
  In-append (y ∷ xs) ys (there m) = elim (In-append xs ys m) [
    | inl n ↦ inl (there n)
    | inr n ↦ inr n
  ]

  pub append_left : {x : A} (xs ys : List A) → In x xs → In x (xs ++ ys)
  append_left [] ys m = elim m [ ]
  append_left (y ∷ xs) ys (here e) = here e
  append_left (y ∷ xs) ys (there m) = there (append_left xs ys m)

  pub append_right : {x : A} (xs ys : List A) → In x ys → In x (xs ++ ys)
  append_right [] ys m = m
  append_right (y ∷ xs) ys m = there (append_right xs ys m)

pub contains-In : (a : ℕ) (xs : List ℕ) → contains a xs ≡ true → In a xs
contains-In a [] h = cc
contains-In a (x ∷ xs) h = elim (Bool-cases (a == x)) [
  | inl e ↦ here (ground arith)
  | inr e ↦ there (contains-In a xs (ground arith))
]

pub In-contains : (a : ℕ) (xs : List ℕ) → In a xs → contains a xs ≡ true
In-contains a [] m = elim m [ ]
In-contains a (x ∷ xs) (here e) = ground arith
In-contains a (x ∷ xs) (there m) = ground (arith, In-contains a xs m)
