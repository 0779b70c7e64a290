-- ===== src/Steps/Foreign.antt =====
-- What a step of user `u` leaves alone: the rows of every other user.
use networkdisk.Prelude.{
  ℕ, ◌≡◌, refl, ◌∙◌, Bool, true, false, not, ◌&&◌, List, [], ◌∷◌, In, select, arith, ◌==◌,
  Bool-cases, inl, inr, here, there, select-update_disjoint,
}
use networkdisk.Model.{File, User, Db, Env}
use networkdisk.Store.Sql.{has_id, in_ids, update_files, trashed, untrashed, in_trash}
use networkdisk.Store.Users.{add_used}
use networkdisk.Steps.{
  Change, Reach, rename, move, star, create, add, trash, purge, charge, restore, reparent, done,
  step,
}
use networkdisk.Steps.Sound.{IsSound, OwnsAll-one, Change-IsSound}

-- The rows of `files` that are not `u`'s, and the other rows of `users`.
abbrev pub foreign_files : ℕ → Db → List File
foreign_files u d = select (λ f. not (f.user_id == u)) d.files

abbrev pub foreign_users : ℕ → Db → List User
foreign_users u d = select (λ x. not (x.id == u)) d.users

pub record SameForeign (u : ℕ) (d d' : Db) : Type 0 where
  pub files : foreign_files u d' ≡ foreign_files u d
  pub users : foreign_users u d' ≡ foreign_users u d

owned_update :
    (u : ℕ) (d : Db) (p : File → Bool) (f : File → File)
    → ((x : File) → In x d.files → p x ≡ true → x.user_id ≡ u)
    → ((x : File) → (f x).user_id ≡ x.user_id)
    → SameForeign u d (update_files p f d)
owned_update u d p f own same = record {
  files =
      select-update_disjoint (λ x. not (x.user_id == u)) p f d.files
        (λ x m h. let e = own x m h in (ground arith, rw (same x) (ground arith)));
  users = refl;
}

select-select :
    (q p : File → Bool) (xs : List File)
    → ((x : File) → In x xs → p x ≡ false → q x ≡ false)
    → select q (select p xs) ≡ select q xs
unfolding select
select-select q p [] h = refl
select-select q p (x ∷ xs) h = elim (Bool-cases (p x)) [
  | inl e ↦ rw (e, select-select q p xs (λ y m. h y (there m)))
  | inr e ↦ rw (e, h x (here refl) e) (select-select q p xs (λ y m. h y (there m)))
]

-- A step of `u` on a sound database changes no row of another user.
pub Change-SameForeign :
    {v : Env} {u : ℕ} {strict : Bool} {d d' : Db}
    → IsSound d
    → Change v u strict d d'
    → SameForeign u d d'
unfolding add_used select
Change-SameForeign {u = u} {d = d} s (rename i n f o c e) =
    rw e (owned_update u d (has_id i) (λ f. record f { name = n }) (OwnsAll-one s o) (λ x. refl))
Change-SameForeign {u = u} {d = d} s (move i parent f o h c e) = rw e (
    owned_update u d (has_id i) (λ f. record f { parent_id = parent }) (OwnsAll-one s o)
      (λ x. refl))
Change-SameForeign {u = u} {d = d} s (star i f o e) = rw e (
    owned_update u d (has_id i) (λ f. record f { is_starred = not f.is_starred }) (OwnsAll-one s o)
      (λ x. refl))
Change-SameForeign {u = u} s (create f o h c e) =
    rw e (record { files = ground arith; users = refl })
Change-SameForeign {u = u} s (add f q o h e) = rw e (record { files = ground arith; users = refl })
Change-SameForeign {u = u} {d = d} s (trash ids now o e) =
    rw e (owned_update u d (in_ids ids) (trashed now) o (λ x. refl))
Change-SameForeign {u = u} {d = d} s (purge ids o e) = rw e (record {
  files =
      select-select (λ x. not (x.user_id == u)) (λ f. not (in_ids ids f)) d.files
        (λ x m h. let e' = o x m (ground arith) in ground arith);
  users = refl;
})
Change-SameForeign {u = u} {d = d} s (charge delta e) = rw e (record {
  files = refl;
  users =
      select-update_disjoint (λ x. not (x.id == u)) (λ x. x.id == u) (add_used delta) d.users
        (λ x m h. (ground arith, ground arith));
})
Change-SameForeign {u = u} {d = d} s (restore ids t o e) = rw e (
    owned_update u d (λ f. in_ids ids f && in_trash f) untrashed (λ x m h. o x m (ground arith))
      (λ x. refl))
Change-SameForeign {u = u} {d = d} s (reparent ids parent t o h e) =
    rw e (owned_update u d (in_ids ids) (λ f. record f { parent_id = parent }) o (λ x. refl))

pub Reach-SameForeign :
    {v : Env} {u : ℕ} {strict : Bool} {d d' : Db}
    → IsSound d
    → Reach v u strict d d'
    → SameForeign u d d'
Reach-SameForeign s (done e) = rw e (record { files = refl; users = refl })
Reach-SameForeign s (step c r) =
    let a = Change-SameForeign s c in
    let b = Reach-SameForeign (Change-IsSound c s) r in
    record { files = b.files ∙ a.files; users = b.users ∙ a.users }
