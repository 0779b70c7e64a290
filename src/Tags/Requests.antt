-- ===== src/Tags/Requests.antt =====
-- The calls of the service of tags, and what any sequence of them keeps, among the requests on files.
use networkdisk.Prelude.{
  ℕ, ◌≡◌, refl, sym, ap, ◌∙◌, not, List, [], ◌∷◌, In, In-cons, In-select, arith, ◌⊎◌, inl, inr,
}
use networkdisk.Text.{Text}
use networkdisk.Model.{Tag, Db, Env, World}
use networkdisk.Exec.{Result-cases}
use networkdisk.Store.Tags as Table
use networkdisk.Store.Tags.{has_tag, same_tag, insert_tag, remove_tag, links_to}
use networkdisk.Steps.Sound.{IsSound, Reach-IsSound}
use networkdisk.Files.Requests as Files
use networkdisk.Tags.Rows.{Reach-IsTagged}
use networkdisk.Tags as Tags
use networkdisk.Tags.{own_tag, or_default_color}
use networkdisk.Tags.Owned.{IsTagged}
use networkdisk.Tags.Attach.{own_tag-db, attach_files-Kept}

pub data Call : Type 0 where
  create : ℕ → Text → Text → Call
  delete : ℕ → ℕ → Call
  attach_files : ℕ → List ℕ → List ℕ → Call

-- The state after a call, whether it succeeds or fails.
pub handle : Call → Env → World → World
handle (create u n c) v w = (Tags.create u n c v w).1
handle (delete u i) v w = (Tags.delete u i v w).1
handle (attach_files u ts fs) v w = (Tags.attach_files u ts fs v w).1

insert-IsTagged : (t : Tag) (d : Db) → IsTagged d → IsTagged (insert_tag t d)
insert-IsTagged t d h = record {
  files = h.files;
  tags = λ s m. elim (In-cons m) [
    | inl e ↦ let k = ap (λ (z : Tag). z.id) e in omega (arith, k)
    | inr n ↦ let k = h.tags s n in omega (arith, k)
  ];
  unique = λ s r m n e. elim (In-cons m) [
    | inl a ↦ elim (In-cons n) [
      | inl b ↦ a ∙ sym b
      | inr b ↦
          absurd (let k = ap (λ (z : Tag). z.id) a in let l = h.tags r b in omega (arith, k, l, e))
    ]
    | inr a ↦ elim (In-cons n) [
      | inl b ↦
          absurd (let k = ap (λ (z : Tag). z.id) b in let l = h.tags s a in omega (arith, k, l, e))
      | inr b ↦ h.unique s r a b e
    ]
  ];
  links = λ f s m.
      let a = h.links f s m in
      let b = a.1 in
      (
        a.0,
        omega (arith, b),
        λ g r n o p q. elim (In-cons o) [
          | inl e ↦ absurd (let k = ap (λ (z : Tag). z.id) e in omega (arith, k, q, b))
          | inr x ↦ a.2 g r n x p q
        ],
      );
}

remove-IsTagged : (i : ℕ) (d : Db) → IsTagged d → IsTagged (remove_tag i d)
remove-IsTagged i d h =
    let from = λ (s : Tag) (m : In s (remove_tag i d).tags).
      (In-select (λ t. not (has_tag i t)) d.tags s m).0 in
    record {
      files = h.files;
      tags = λ s m. h.tags s (from s m);
      unique = λ s r m n e. h.unique s r (from s m) (from r n) e;
      links = λ f s m.
          let a = h.links f s (In-select (λ l. not (links_to i l)) d.file_tags (f, s) m).0 in
          (a.0, a.1, λ g r n o p q. a.2 g r n (from r o) p q);
    }

abbrev asked : ℕ → Text → Text → Tag
asked u n c = record { id = 0; user_id = u; name = n; color = or_default_color c }

create-cases :
    (u : ℕ) (n c : Text) (v : Env) (w : World)
    → ((Tags.create u n c v w).1.db ≡ w.db)
      ⊎ ((Tags.create u n c v w).1.db ≡ insert_tag (asked u n c) w.db)
unfolding Tags.create Table.create_tag Table.tag_by_id
create-cases u n c v w = ground arith

delete-cases :
    (u i : ℕ) (v : Env) (w : World)
    → ((Tags.delete u i v w).1.db ≡ w.db) ⊎ ((Tags.delete u i v w).1.db ≡ remove_tag i w.db)
unfolding Tags.delete Table.delete_tag
delete-cases u i v w =
    let a = own_tag-db u i v w in
    elim (Result-cases (own_tag u i v w).0) [
      | inl (t, q) ↦ ground arith
      | inr (e, q) ↦ ground arith
    ]

-- Whatever call of the service of tags comes, and whichever of its statements fail, each pair of a
-- file and a tag stays one of a single user's.
handle-IsTagged : (c : Call) (v : Env) (w : World) → IsTagged w.db → IsTagged (handle c v w).db
unfolding handle
handle-IsTagged (create u n c) v w h = elim (create-cases u n c v w) [
  | inl e ↦ rw e h
  | inr e ↦ rw e (insert-IsTagged (asked u n c) w.db h)
]
handle-IsTagged (delete u i) v w h = elim (delete-cases u i v w) [
  | inl e ↦ rw e h
  | inr e ↦ rw e (remove-IsTagged i w.db h)
]
handle-IsTagged (attach_files u ts fs) v w h = (attach_files-Kept u ts fs v w h).tagged

-- The rows of files are those before.
handle-rows :
    (c : Call) (v : Env) (w : World)
    → IsTagged w.db
    → ((handle c v w).db.files ≡ w.db.files) × ((handle c v w).db.last_file ≡ w.db.last_file)
unfolding handle
handle-rows (create u n c) v w h = elim (create-cases u n c v w) [
  | inl e ↦ rw e (refl, refl)
  | inr e ↦ rw e (refl, refl)
]
handle-rows (delete u i) v w h = elim (delete-cases u i v w) [
  | inl e ↦ rw e (refl, refl)
  | inr e ↦ rw e (refl, refl)
]
handle-rows (attach_files u ts fs) v w h =
    let k = attach_files-Kept u ts fs v w h in (k.files, k.last_file)

rows-IsSound :
    (d d' : Db) → d'.files ≡ d.files → d'.last_file ≡ d.last_file → IsSound d → IsSound d'
rows-IsSound d d' f l s = record {
  unique = λ g h m n e. s.unique g h (rw f at m) (rw f at n) e;
  bounded = λ g m. rw l (s.bounded g (rw f at m));
  owned = λ g h m n e. s.owned g h (rw f at m) (rw f at n) e;
  parents = λ g p m e. rw l (s.parents g p (rw f at m) e);
}

-- What comes to the server: a call of the service of tags, or a request of a user on files.
pub data Arrival : Type 0 where
  tags : Call → Arrival
  files : ℕ → Files.Request → Arrival

-- A sequence of them, each served to its end.
pub run_arrivals : List Arrival → Env → World → World
run_arrivals [] v w = w
run_arrivals (tags c ∷ xs) v w = run_arrivals xs v (handle c v w)
run_arrivals (files u r ∷ xs) v w = run_arrivals xs v (Files.serve u r v w)

-- From a sound database whose tags are sound, whatever calls on tags and requests on files of any
-- users come, in any order and whichever of their statements fail, numbers of tags stay unique, and a
-- file and a tag that are paired belong to one user. Uploads are not among the requests.
pub run_arrivals-IsTagged :
    (xs : List Arrival) (v : Env) (w : World)
    → IsSound w.db
    → IsTagged w.db
    → IsTagged (run_arrivals xs v w).db
unfolding run_arrivals
run_arrivals-IsTagged [] v w s h = h
run_arrivals-IsTagged (tags c ∷ xs) v w s h =
    let r = handle-rows c v w h in
    run_arrivals-IsTagged xs v (handle c v w) (rows-IsSound w.db (handle c v w).db r.0 r.1 s)
      (handle-IsTagged c v w h)
run_arrivals-IsTagged (files u r ∷ xs) v w s h =
    let k = Files.serve-Reach u r v w s in
    run_arrivals-IsTagged xs v (Files.serve u r v w) (Reach-IsSound k s)
      (Reach-IsTagged w.db (Files.serve u r v w).db k h)
