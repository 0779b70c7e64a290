-- ===== src/Steps/Names.antt =====
-- Two live rows of one directory have different names: the strict steps keep this.
use networkdisk.Prelude.{
  ℕ, ◌+◌, ◌≡◌, refl, sym, ◌∙◌, ap, ◌⊎◌, Bool, true, false, not, List, In, any, arith, if◌then◌else◌,
  Bool-cases, inl, inr, In-update, In-select, In-cons, any-false,
}
use networkdisk.Text.{Text}
use networkdisk.Model.{File, Db, Env}
use networkdisk.Store.Sql.{has_id, has_name, in_ids, update_files, insert_row, new_row, trashed}
use networkdisk.Store.Users.{add_used}
use networkdisk.Steps.{
  Owns, Change, Reach, rename, move, star, create, add, trash, purge, charge, restore, reparent,
  done, step,
}
use networkdisk.Steps.Sound.{IsSound, Owns-In, Change-IsSound}

-- What the program relies on in the collation.
pub record IsCollation (v : Env) : Type 0 where
  pub same_sym : (a b : Text) → v.same_text a b ≡ true → v.same_text b a ≡ true

pub record Clash (v : Env) (f g : File) : Type 0 where
  pub live_left : f.is_deleted ≡ false
  pub live_right : g.is_deleted ≡ false
  pub user : f.user_id ≡ g.user_id
  pub parent : f.parent_id ≡ g.parent_id
  pub name : v.same_text f.name g.name ≡ true

pub record NamesApart (v : Env) (d : Db) : Type 0 where
  pub apart : (f g : File) → In f d.files → In g d.files → Clash v f g → f.id ≡ g.id

Clash-sym : {v : Env} {f g : File} → IsCollation v → Clash v f g → Clash v g f
Clash-sym {v} {f} {g} c h = record {
  live_left = h.live_right;
  live_right = h.live_left;
  user = sym h.user;
  parent = sym h.parent;
  name = c.same_sym f.name g.name h.name;
}

-- A live row that clashes with one of `u` named `n` is found by the query.
has_name-Clash :
    {v : Env} {u : ℕ} (f g : File)
    → Clash v f g
    → g.user_id ≡ u
    → has_name v g.parent_id u g.name f ≡ true
has_name-Clash {v} {u} f g h o = ground arith

Clear-not-Clash :
    {v : Env} {u : ℕ} (files : List File) (f g : File)
    → g.user_id ≡ u
    → any (has_name v g.parent_id u g.name) files ≡ false
    → In f files
    → Clash v f g
    → ⊥
Clear-not-Clash {v} {u} files f g o clear m h =
    cc (any-false (has_name v g.parent_id u g.name) files f clear m, has_name-Clash f g h o)

-- A change of one row, to a name that is free where the row comes to lie.
module _ {v : Env} {u i : ℕ} {r : File} (d : Db) (f : File → File) (c : IsCollation v)
    (s : IsSound d) (o : Owns u i r d) (apart : NamesApart v d)
    (same_id : (x : File) → (f x).id ≡ x.id) (same_user : (f r).user_id ≡ u)
    (clear : any (has_name v (f r).parent_id u (f r).name) d.files ≡ false) where
  abbrev after : File → File
  after x = if has_id i x then f x else x

  is_row : (x : File) → In x d.files → has_id i x ≡ true → x ≡ r
  is_row x m h = let w = Owns-In o in s.unique x r m w.0 (ground arith)

  after-apart :
      (x y : File)
      → In x d.files
      → In y d.files
      → Clash v (after x) (after y)
      → (after x).id ≡ (after y).id
  after-apart x y m n h = elim (Bool-cases (has_id i x)) [
    | inl p ↦ elim (Bool-cases (has_id i y)) [
      | inl q ↦ rw (is_row x m p, is_row y n q)
      | inr q ↦
          let h' : Clash v (f r) y = rw (p, q, is_row x m p) at h in
          absurd (Clear-not-Clash d.files y (f r) same_user clear n (Clash-sym c h'))
    ]
    | inr p ↦ elim (Bool-cases (has_id i y)) [
      | inl q ↦
          let h' : Clash v x (f r) = rw (p, q, is_row y n q) at h in
          absurd (Clear-not-Clash d.files x (f r) same_user clear m h')
      | inr q ↦ rw (p, q) (apart.apart x y m n (rw (p, q) at h))
    ]
  ]

  one_row-NamesApart : NamesApart v (update_files (has_id i) f d)
  one_row-NamesApart = record {
    apart = λ x y m n h.
        let a = In-update (has_id i) f d.files x m in
        let b = In-update (has_id i) f d.files y n in
        let h' : Clash v (after a.0) (after b.0) = rw (← a.2, ← b.2) h in
        rw (a.2, b.2) (after-apart a.0 b.0 a.1 b.1 h');
  }

-- A change of rows that gives up lives, and no name, keeps the names apart.
fewer_lives-NamesApart :
    {v : Env} (d : Db) (p : File → Bool) (f : File → File)
    → ((x : File) → (f x).id ≡ x.id)
    → ((x y : File) → Clash v (f x) y → Clash v x y)
    → ((x y : File) → Clash v x (f y) → Clash v x y)
    → NamesApart v d
    → NamesApart v (update_files p f d)
fewer_lives-NamesApart {v} d p f same_id left right apart = record {
  apart = λ x y m n h.
      let a = In-update p f d.files x m in
      let b = In-update p f d.files y n in
      let h' : Clash v (if p a.0 then f a.0 else a.0) (if p b.0 then f b.0 else b.0) =
        rw (← a.2, ← b.2) h in
      rw (a.2, b.2) (ids a.0 b.0 ∙ apart.apart a.0 b.0 a.1 b.1 (go a.0 b.0 h') ∙ sym (ids b.0 b.0));
}
  where
    ids : (x y : File) → (if p x then f x else x).id ≡ x.id
    ids x y = elim (Bool-cases (p x)) [ inl e ↦ rw e (same_id x) | inr e ↦ rw e ]

    drop_right : (x y : File) → Clash v x (if p y then f y else y) → Clash v x y
    drop_right x y h = elim (Bool-cases (p y)) [ inl e ↦ right x y (rw e at h) | inr e ↦ rw e at h ]

    go : (x y : File) → Clash v (if p x then f x else x) (if p y then f y else y) → Clash v x y
    go x y h = elim (Bool-cases (p x)) [
      | inl e ↦ left x y (drop_right (f x) y (rw e at h))
      | inr e ↦ drop_right x y (rw e at h)
    ]

insert-NamesApart :
    {v : Env} {u : ℕ} {d : Db} (f : File)
    → IsCollation v
    → NamesApart v d
    → f.user_id ≡ u
    → any (has_name v f.parent_id u f.name) d.files ≡ false
    → NamesApart v (insert_row f d)
insert-NamesApart {v} {u} {d} f c apart o clear = record {
  apart = λ x y m n h. go x y (In-cons m) (In-cons n) h;
}
  where
    r : File
    r = new_row (d.last_file + 1) f

    go : (x y : File) → (x ≡ r) ⊎ In x d.files → (y ≡ r) ⊎ In y d.files → Clash v x y → x.id ≡ y.id
    go x y (inl p) (inl q) h = ap (λ (z : File). z.id) (p ∙ sym q)
    go x y (inl p) (inr n) h =
        absurd (Clear-not-Clash d.files y r o clear n (Clash-sym c (rw p at h)))
    go x y (inr m) (inl q) h = absurd (Clear-not-Clash d.files x r o clear m (rw q at h))
    go x y (inr m) (inr n) h = apart.apart x y m n h

-- Every strict step keeps the names apart.
pub Change-NamesApart :
    {v : Env} {u : ℕ} {d d' : Db}
    → IsCollation v
    → IsSound d
    → NamesApart v d
    → Change v u true d d'
    → NamesApart v d'
unfolding add_used
Change-NamesApart {v} {u} {d} c s a (rename i n f o clear e) =
    rw e (one_row-NamesApart d (λ f. record f { name = n }) c s o a (λ x. refl) o.owner clear)
Change-NamesApart {v} {u} {d} c s a (move i parent f o h clear e) =
    rw e (
      one_row-NamesApart d (λ f. record f { parent_id = parent }) c s o a (λ x. refl) o.owner clear)
Change-NamesApart {v} {u} {d} c s a (star i f o e) = rw e (
    fewer_lives-NamesApart d (has_id i) (λ f. record f { is_starred = not f.is_starred })
      (λ x. refl) (λ x y h. ground arith) (λ x y h. ground arith) a)
Change-NamesApart c s a (create f o h clear e) = rw e (insert-NamesApart f c a o clear)
Change-NamesApart {v} {u} {d} c s a (trash ids now o e) = rw e (
    fewer_lives-NamesApart d (in_ids ids) (trashed now) (λ x. refl) (λ x y h. cc h.live_left)
      (λ x y h. cc h.live_right) a)
Change-NamesApart {v} {u} {d} c s a (purge ids o e) = rw e (record {
  apart = λ x y m n h.
      let p = λ (f : File). not (in_ids ids f) in
      a.apart x y (In-select p d.files x m).0 (In-select p d.files y n).0 h;
})
Change-NamesApart c s a (charge delta e) = rw e (record { apart = a.apart })
Change-NamesApart c s a (add f t o h e) = cc
Change-NamesApart c s a (restore ids t o e) = cc
Change-NamesApart c s a (reparent ids parent t o h e) = cc

pub Reach-NamesApart :
    {v : Env} {u : ℕ} {d d' : Db}
    → IsCollation v
    → IsSound d
    → NamesApart v d
    → Reach v u true d d'
    → NamesApart v d'
Reach-NamesApart c s a (done e) = rw e a
Reach-NamesApart c s a (step x r) =
    Reach-NamesApart c (Change-IsSound x s) (Change-NamesApart c s a x) r
