-- ===== src/Steps/Sound.antt =====
-- The invariant of the table `files`, and that every step keeps it.
use networkdisk.Prelude.{
  ℕ, ◌+◌, ◌≤◌, ◌≡◌, refl, sym, ◌⊎◌, inl, inr, ◌∙◌, ap, Bool, true, not, ◌&&◌, Option, none, some,
  List, In, arith, if◌then◌else◌, Bool-cases, In-update, In-select, first-some, In-cons,
}
use networkdisk.Prelude.Int.{ℤ}
use networkdisk.Model.{File, Db, Env}
use networkdisk.Store.Sql.{
  has_id, in_ids, update_files, insert_row, new_row, trashed, untrashed, in_trash,
}
use networkdisk.Store.Tx.{delete_rows}
use networkdisk.Store.Users.{update_users, add_used}
use networkdisk.Steps.{
  Owns, MayHold, Change, Reach, rename, move, star, create, add, trash, purge, charge, restore,
  reparent, done, step,
}

-- Numbers are given once, never reused, and a row belongs to the owner of its directory.
pub record IsSound (d : Db) : Type 0 where
  pub unique : (f g : File) → In f d.files → In g d.files → f.id ≡ g.id → f ≡ g
  pub bounded : (f : File) → In f d.files → f.id ≤ d.last_file
  pub owned :
      (f g : File) → In f d.files → In g d.files → f.parent_id ≡ some g.id → f.user_id ≡ g.user_id
  pub parents : (f : File) (p : ℕ) → In f d.files → f.parent_id ≡ some p → p ≤ d.last_file

pub Owns-In : {u i : ℕ} {f : File} {d : Db} → Owns u i f d → In f d.files × (f.id ≡ i)
Owns-In {u} {i} {f} {d} o = let r = first-some (has_id i) d.files f o.found in (r.0, ground arith)

-- An owned number names rows of the owner only.
pub OwnsAll-one :
    {u i : ℕ} {f : File} {d : Db}
    → IsSound d
    → Owns u i f d
    → (g : File) → In g d.files
    → has_id i g ≡ true
    → g.user_id ≡ u
OwnsAll-one {u} {i} {f} {d} s o g m h =
    let r = Owns-In o in let same : g ≡ f = s.unique g f m r.0 (ground arith) in rw same o.owner

-- A change of rows that keeps their numbers and owners, and gives only directories that may hold
-- them, keeps the invariant.
module _ (d : Db) (p : File → Bool) (f : File → File) (s : IsSound d)
    (same_id : (x : File) → (f x).id ≡ x.id) (same_user : (x : File) → (f x).user_id ≡ x.user_id)
    (parent_ok : (x : File) (k : ℕ)
      → In x d.files
      → p x ≡ true
      → (f x).parent_id ≡ some k
      → k ≤ d.last_file)
    (parent_owner : (x g : File)
      → In x d.files
      → In g d.files
      → p x ≡ true
      → (f x).parent_id ≡ some g.id
      → x.user_id ≡ g.user_id) where
  abbrev after : File → File
  after x = if p x then f x else x

  after-id : (x : File) → (after x).id ≡ x.id
  after-id x = elim (Bool-cases (p x)) [ inl e ↦ rw e (same_id x) | inr e ↦ rw e ]

  after-user : (x : File) → (after x).user_id ≡ x.user_id
  after-user x = elim (Bool-cases (p x)) [ inl e ↦ rw e (same_user x) | inr e ↦ rw e ]

  after-owned :
      (x g : File)
      → In x d.files
      → In g d.files
      → (after x).parent_id ≡ some (after g).id
      → x.user_id ≡ g.user_id
  after-owned x g m n h = elim (Bool-cases (p x)) [
    | inl e ↦ parent_owner x g m n e (rw (e, after-id g) at h)
    | inr e ↦ s.owned x g m n (rw (e, after-id g) at h)
  ]

  after-parent : (x : File) (k : ℕ) → In x d.files → (after x).parent_id ≡ some k → k ≤ d.last_file
  after-parent x k m h = elim (Bool-cases (p x)) [
    | inl e ↦ parent_ok x k m e (rw e at h)
    | inr e ↦ s.parents x k m (rw e at h)
  ]

  pub update-IsSound : IsSound (update_files p f d)
  update-IsSound = record {
    unique = λ x y m n h.
        let a = In-update p f d.files x m in
        let b = In-update p f d.files y n in
        let ids : (a.0).id ≡ (b.0).id =
          sym (after-id a.0)
          ∙ ap (λ (z : File). z.id) (sym a.2)
          ∙ h
          ∙ ap (λ (z : File). z.id) b.2
          ∙ after-id b.0 in
        a.2 ∙ ap after (s.unique a.0 b.0 a.1 b.1 ids) ∙ sym b.2;
    bounded =
        λ x m. let a = In-update p f d.files x m in rw (a.2, after-id a.0) (s.bounded a.0 a.1);
    owned = λ x y m n h.
        let a = In-update p f d.files x m in
        let b = In-update p f d.files y n in
        rw (a.2, b.2, after-user a.0, after-user b.0)
          (after-owned a.0 b.0 a.1 b.1
            (sym (ap (λ (z : File). z.parent_id) a.2) ∙ h ∙ ap (λ (z : File). some z.id) b.2));
    parents = λ x k m h.
        let a = In-update p f d.files x m in
        after-parent a.0 k a.1 (sym (ap (λ (z : File). z.parent_id) a.2) ∙ h);
  }

-- `MayHold` gives the owner of the directory.
MayHold-owner :
    {u : ℕ} {parent : Option ℕ} {d : Db}
    → IsSound d
    → MayHold u parent d
    → (g : File) → In g d.files
    → parent ≡ some g.id
    → g.user_id ≡ u
MayHold-owner {parent = none} s h g m e = cc
MayHold-owner {u} {parent = some p} {d} s h g m e = OwnsAll-one s h.1 g m (ground arith)

MayHold-bound :
    (u : ℕ) {parent : Option ℕ} {d : Db}
    → IsSound d
    → MayHold u parent d
    → (k : ℕ) → parent ≡ some k
    → k ≤ d.last_file
MayHold-bound u {parent = none} s h k e = cc
MayHold-bound u {parent = some p} {d} s h k e =
    let r = Owns-In h.1 in let q : p ≡ k = ground arith in omega (arith, s.bounded h.0 r.0, r.1, q)

insert-IsSound :
    {u : ℕ} {d : Db} (f : File)
    → IsSound d
    → f.user_id ≡ u
    → MayHold u f.parent_id d
    → IsSound (insert_row f d)
insert-IsSound {u} {d} f s owner h = record {
  unique = λ x y m n e. unique_one x y (In-cons m) (In-cons n) e;
  bounded =
      λ x m. elim (In-cons m) [ inl q ↦ rw q (omega arith) | inr n ↦ omega (arith, s.bounded x n) ];
  owned = λ x y m n e. owned_one x y (In-cons m) (In-cons n) e;
  parents = λ x k m e. elim (In-cons m) [
    | inl q ↦ omega (arith, MayHold-bound u s h k (sym (ap (λ (z : File). z.parent_id) q) ∙ e))
    | inr n ↦ omega (arith, s.parents x k n e)
  ];
}
  where
    fresh : (x : File) → In x d.files → (d.last_file + 1) ≡ x.id → ⊥
    fresh x m e = omega (arith, s.bounded x m)

    unique_one :
        (x y : File)
        → (x ≡ new_row (d.last_file + 1) f) ⊎ In x d.files
        → (y ≡ new_row (d.last_file + 1) f) ⊎ In y d.files
        → x.id ≡ y.id
        → x ≡ y
    unique_one x y (inl p) (inl q) e = p ∙ sym q
    unique_one x y (inl p) (inr n) e = absurd (fresh y n (sym (ap (λ (z : File). z.id) p) ∙ e))
    unique_one x y (inr m) (inl q) e = absurd (fresh x m (sym (e ∙ ap (λ (z : File). z.id) q)))
    unique_one x y (inr m) (inr n) e = s.unique x y m n e

    owned_one :
        (x y : File)
        → (x ≡ new_row (d.last_file + 1) f) ⊎ In x d.files
        → (y ≡ new_row (d.last_file + 1) f) ⊎ In y d.files
        → x.parent_id ≡ some y.id
        → x.user_id ≡ y.user_id
    owned_one x y (inl p) (inl q) e = ap (λ (z : File). z.user_id) (p ∙ sym q)
    owned_one x y (inl p) (inr n) e =
        ap (λ (z : File). z.user_id) p
        ∙ owner
        ∙ sym (MayHold-owner s h y n (sym (ap (λ (z : File). z.parent_id) p) ∙ e))
    owned_one x y (inr m) (inl q) e = absurd (
        let q : y.id ≡ (d.last_file + 1) = ap (λ (z : File). z.id) q in
        omega (arith, q, s.parents x y.id m e))
    owned_one x y (inr m) (inr n) e = s.owned x y m n e

delete-IsSound : (ids : List ℕ) (d : Db) → IsSound d → IsSound (delete_rows ids d)
delete-IsSound ids d s = record {
  unique = λ x y m n e. s.unique x y (kept x m) (kept y n) e;
  bounded = λ x m. s.bounded x (kept x m);
  owned = λ x y m n e. s.owned x y (kept x m) (kept y n) e;
  parents = λ x k m e. s.parents x k (kept x m) e;
}
  where
    kept : (x : File) → In x (delete_rows ids d).files → In x d.files
    kept x m = (In-select (λ f. not (in_ids ids f)) d.files x m).0

charge-IsSound :
    (u : ℕ) (delta : ℤ) (d : Db) → IsSound d → IsSound (update_users u (add_used delta) d)
charge-IsSound u delta d s = record {
  unique = s.unique;
  bounded = s.bounded;
  owned = s.owned;
  parents = s.parents;
}

-- A change of other columns.
same_place-IsSound :
    (d : Db) (p : File → Bool) (f : File → File)
    → IsSound d
    → ((x : File) → (f x).id ≡ x.id)
    → ((x : File) → (f x).user_id ≡ x.user_id)
    → ((x : File) → (f x).parent_id ≡ x.parent_id)
    → IsSound (update_files p f d)
same_place-IsSound d p f s i u q =
    update-IsSound d p f s i u (λ x k m e h. s.parents x k m (sym (q x) ∙ h))
      (λ x g m n e h. s.owned x g m n (sym (q x) ∙ h))

move-IsSound :
    {u : ℕ} {d : Db} (p : File → Bool) (parent : Option ℕ)
    → IsSound d
    → ((f : File) → In f d.files → p f ≡ true → f.user_id ≡ u)
    → MayHold u parent d
    → IsSound (update_files p (λ x. record x { parent_id = parent }) d)
move-IsSound {u} {d} p parent s o h =
    update-IsSound d p (λ x. record x { parent_id = parent }) s (λ x. refl) (λ x. refl)
      (λ x k m e q. MayHold-bound u s h k q)
      (λ x g m n e q. o x m e ∙ sym (MayHold-owner s h g n q))

-- Every step keeps the invariant.
pub Change-IsSound :
    {v : Env} {u : ℕ} {strict : Bool} {d d' : Db} → Change v u strict d d' → IsSound d → IsSound d'
Change-IsSound {d = d} (rename i n f o c e) s = rw e (
    same_place-IsSound d (has_id i) (λ f. record f { name = n }) s (λ x. refl) (λ x. refl)
      (λ x. refl))
Change-IsSound (move i parent f o h c e) s =
    rw e (move-IsSound (has_id i) parent s (OwnsAll-one s o) h)
Change-IsSound {d = d} (star i f o e) s = rw e (
    same_place-IsSound d (has_id i) (λ f. record f { is_starred = not f.is_starred }) s (λ x. refl)
      (λ x. refl) (λ x. refl))
Change-IsSound (create f o h c e) s = rw e (insert-IsSound f s o h)
Change-IsSound (add f q o h e) s = rw e (insert-IsSound f s o h)
Change-IsSound {d = d} (trash ids now o e) s =
    rw e (same_place-IsSound d (in_ids ids) (trashed now) s (λ x. refl) (λ x. refl) (λ x. refl))
Change-IsSound {d = d} (purge ids o e) s = rw e (delete-IsSound ids d s)
Change-IsSound {u = u} {d = d} (charge delta e) s = rw e (charge-IsSound u delta d s)
Change-IsSound {d = d} (restore ids t o e) s = rw e (
    same_place-IsSound d (λ f. in_ids ids f && in_trash f) untrashed s (λ x. refl) (λ x. refl)
      (λ x. refl))
Change-IsSound (reparent ids parent t o h e) s = rw e (move-IsSound (in_ids ids) parent s o h)

pub Reach-IsSound :
    {v : Env} {u : ℕ} {strict : Bool} {d d' : Db} → Reach v u strict d d' → IsSound d → IsSound d'
Reach-IsSound (done e) s = rw e s
Reach-IsSound (step c r) s = Reach-IsSound r (Change-IsSound c s)
