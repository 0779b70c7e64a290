-- ===== src/Steps/Owners.antt =====
-- A number that has been given keeps its owner, or is given up for good.
use networkdisk.Prelude.{
  ℕ, ◌≤◌, ◌≡◌, refl, sym, ◌∙◌, ap, inl, inr, Bool, not, ◌&&◌, In, arith, if◌then◌else◌, Bool-cases,
  In-update, In-select, In-cons,
}
use networkdisk.Model.{File, Db, Env}
use networkdisk.Store.Sql.{has_id, in_ids, update_files, trashed, untrashed, in_trash}
use networkdisk.Steps.{
  Change, Reach, rename, move, star, create, add, trash, purge, charge, restore, reparent, done,
  step,
}

-- The numbers of the rows have been given.
abbrev pub AreGiven : Db → Type 0
AreGiven d = (g : File) → In g d.files → g.id ≤ d.last_file

-- The numbers of `d` that `d'` has still belong to whom they belonged.
pub record KeepsOwners (d d' : Db) : Type 0 where
  pub given : AreGiven d → AreGiven d'
  pub grows : d.last_file ≤ d'.last_file
  pub from :
      (g : File)
      → In g d'.files
      → g.id ≤ d.last_file
      → (h : File) × In h d.files × (h.id ≡ g.id) × (h.user_id ≡ g.user_id)

update-KeepsOwners :
    (p : File → Bool) (f : File → File) (d : Db)
    → ((x : File) → (f x).id ≡ x.id)
    → ((x : File) → (f x).user_id ≡ x.user_id)
    → KeepsOwners d (update_files p f d)
update-KeepsOwners p f d i u = record {
  given = λ b g m. let x = In-update p f d.files g m in rw (sym (same_id x.0 g x.2)) (b x.0 x.1);
  grows = omega arith;
  from = λ g m b.
      let x = In-update p f d.files g m in (x.0, x.1, same_id x.0 g x.2, same_user x.0 g x.2);
}
  where
    same_id : (x g : File) → g ≡ (if p x then f x else x) → x.id ≡ g.id
    same_id x g e = elim (Bool-cases (p x)) [
      | inl q ↦ sym (i x) ∙ sym (ap (λ (z : File). z.id) (rw q at e))
      | inr q ↦ sym (ap (λ (z : File). z.id) (rw q at e))
    ]

    same_user : (x g : File) → g ≡ (if p x then f x else x) → x.user_id ≡ g.user_id
    same_user x g e = elim (Bool-cases (p x)) [
      | inl q ↦ sym (u x) ∙ sym (ap (λ (z : File). z.user_id) (rw q at e))
      | inr q ↦ sym (ap (λ (z : File). z.user_id) (rw q at e))
    ]

same-KeepsOwners : (d : Db) → KeepsOwners d d
same-KeepsOwners d = record {
  given = λ b. b;
  grows = omega arith;
  from = λ g m b. (g, m, refl, refl);
}

trans-KeepsOwners : (d e f : Db) → KeepsOwners d e → KeepsOwners e f → KeepsOwners d f
trans-KeepsOwners d e f k l = record {
  given = λ b. l.given (k.given b);
  grows = omega (arith, k.grows, l.grows);
  from = λ g m b.
      let x = l.from g m (omega (arith, b, k.grows)) in
      let y = k.from x.0 x.1 (rw x.2 b) in (y.0, y.1, y.2 ∙ x.2, y.3 ∙ x.3);
}

pub Change-KeepsOwners :
    {v : Env} {u : ℕ} {strict : Bool} (d d' : Db) → Change v u strict d d' → KeepsOwners d d'
Change-KeepsOwners d d' (rename i n f o c e) =
    rw e (update-KeepsOwners (has_id i) (λ f. record f { name = n }) d (λ x. refl) (λ x. refl))
Change-KeepsOwners d d' (move i parent f o h c e) =
    rw e (
      update-KeepsOwners (has_id i) (λ f. record f { parent_id = parent }) d (λ x. refl)
        (λ x. refl))
Change-KeepsOwners d d' (star i f o e) = rw e (
    update-KeepsOwners (has_id i) (λ f. record f { is_starred = not f.is_starred }) d (λ x. refl)
      (λ x. refl))
Change-KeepsOwners d d' (create f o h c e) = rw e (record {
  given = λ b g m. elim (In-cons m) [
    | inl q ↦ let k = ap (λ (z : File). z.id) q in omega (arith, k)
    | inr n ↦ let k = b g n in omega (arith, k)
  ];
  grows = omega arith;
  from = λ g m b. elim (In-cons m) [
    | inl q ↦ absurd (let k = ap (λ (z : File). z.id) q in omega (arith, k, b))
    | inr n ↦ (g, n, refl, refl)
  ];
})
Change-KeepsOwners d d' (add f t o h e) = rw e (record {
  given = λ b g m. elim (In-cons m) [
    | inl q ↦ let k = ap (λ (z : File). z.id) q in omega (arith, k)
    | inr n ↦ let k = b g n in omega (arith, k)
  ];
  grows = omega arith;
  from = λ g m b. elim (In-cons m) [
    | inl q ↦ absurd (let k = ap (λ (z : File). z.id) q in omega (arith, k, b))
    | inr n ↦ (g, n, refl, refl)
  ];
})
Change-KeepsOwners d d' (trash ids now o e) =
    rw e (update-KeepsOwners (in_ids ids) (trashed now) d (λ x. refl) (λ x. refl))
Change-KeepsOwners d d' (purge ids o e) = rw e (record {
  given = λ b g m. b g (In-select (λ f. not (in_ids ids f)) d.files g m).0;
  grows = omega arith;
  from = λ g m b. (g, (In-select (λ f. not (in_ids ids f)) d.files g m).0, refl, refl);
})
Change-KeepsOwners d d' (charge delta e) =
    rw e (record { given = λ b. b; grows = omega arith; from = λ g m b. (g, m, refl, refl) })
Change-KeepsOwners d d' (restore ids t o e) =
    rw e (update-KeepsOwners (λ f. in_ids ids f && in_trash f) untrashed d (λ x. refl) (λ x. refl))
Change-KeepsOwners d d' (reparent ids parent t o h e) = rw e (
    update-KeepsOwners (in_ids ids) (λ f. record f { parent_id = parent }) d (λ x. refl)
      (λ x. refl))

pub Reach-KeepsOwners :
    {v : Env} {u : ℕ} {strict : Bool} (d d' : Db) → Reach v u strict d d' → KeepsOwners d d'
Reach-KeepsOwners d d' (done e) = rw e (same-KeepsOwners d)
Reach-KeepsOwners d d' (step {e = m} c r) =
    trans-KeepsOwners d m d' (Change-KeepsOwners d m c) (Reach-KeepsOwners m d' r)
