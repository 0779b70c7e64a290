-- ===== src/Tags/Attach.antt =====
-- `AttachFiles` changes pairs of the tags and files of its user only.
use mathlib.Core.Path.{subst}
use networkdisk.Prelude.{
  ℕ, ◌≡◌, refl, sym, ◌∙◌, true, some, List, [], ◌∷◌, In, In-cons, here, there, arith, Bool-cases,
  Option-cases, ◌⊎◌, inl, inr, first, first-some, select, select-In, contains, In-contains,
}
use networkdisk.Model.{File, Tag, Env, World}
use networkdisk.Exec.{Result, ok, tick, Result-cases}
use networkdisk.Store.Sql.{in_ids}
use networkdisk.Store.Files
use networkdisk.Store.Tags as Table
use networkdisk.Store.Tags.{
  has_tag, same_tag, link_all, insert_tag, remove_tag, links_to, attach_file_tags,
}
use networkdisk.Tags as Tags
use networkdisk.Tags.{own_tag, check_tags, attach_each, all_of}
use networkdisk.Tags.Owned.{OfOne, IsTagged, Kept, same-Kept, trans-Kept, OfOne-Kept, link_all-Kept}

attach-Kept :
    (f : ℕ) (ts : List ℕ) (v : Env) (w : World)
    → IsTagged w.db
    → ((t : ℕ) → In t ts → OfOne f t w.db)
    → Kept w.db (attach_file_tags f ts v w).1.db
unfolding attach_file_tags
attach-Kept f [] v w h one = same-Kept w.db h
attach-Kept f (t ∷ ts) v w h one =
    let k = link_all-Kept f (t ∷ ts) v (tick w) h one in
    let r : ((attach_file_tags f (t ∷ ts) v w).1.db ≡ w.db)
        ⊎ ((attach_file_tags f (t ∷ ts) v w).1.db ≡ (link_all f (t ∷ ts) v (tick w)).1.db) =
      elim (Result-cases (link_all f (t ∷ ts) v (tick w)).0) [
        | inl (x, q) ↦ ground arith
        | inr (x, q) ↦ ground arith
      ] in
    elim r [ inl e ↦ rw e (same-Kept w.db h) | inr e ↦ rw e k ]

attach_each-Kept :
    (ts fs : List ℕ) (v : Env) (w : World)
    → IsTagged w.db
    → ((f t : ℕ) → In f fs → In t ts → OfOne f t w.db)
    → Kept w.db (attach_each ts fs v w).1.db
unfolding attach_each
attach_each-Kept ts [] v w h one = same-Kept w.db h
attach_each-Kept ts (f ∷ fs) v w h one =
    let z = (attach_file_tags f ts v w).1 in
    let a = attach-Kept f ts v w h (λ t m. one f t (here refl) m) in
    let b =
      attach_each-Kept ts fs v z a.tagged
        (λ g t m n. OfOne-Kept g t w.db z.db a (one g t (there m) n)) in
    elim (Result-cases (attach_file_tags f ts v w).0) [
      | inl (x, q) ↦
          let e : (attach_each ts (f ∷ fs) v w).1.db ≡ (attach_each ts fs v z).1.db =
            ground arith in
          rw e (trans-Kept w.db z.db _ a b)
      | inr (x, q) ↦ let e : (attach_each ts (f ∷ fs) v w).1.db ≡ z.db = ground arith in rw e a
    ]

pub own_tag-db : (u i : ℕ) (v : Env) (w : World) → (own_tag u i v w).1.db ≡ w.db
unfolding own_tag Table.tag_by_id
own_tag-db u i v w = ground arith

-- A tag that is found to be the user's is.
own_tag_ok :
    (u i : ℕ) (v : Env) (w : World) (t : Tag)
    → (own_tag u i v w).0 ≡ ok t
    → (first (has_tag i) w.db.tags ≡ some t) × (t.user_id ≡ u)
unfolding own_tag Table.tag_by_id
own_tag_ok u i v w t h = elim (Option-cases (first (has_tag i) w.db.tags)) [
  | inl q ↦ absurd (ground arith)
  | inr (s, q) ↦ let e : s ≡ t = ground arith in (rw e at q, ground arith)
]

check_tags-db : (u : ℕ) (is : List ℕ) (v : Env) (w : World) → (check_tags u is v w).1.db ≡ w.db
unfolding check_tags
check_tags-db u [] v w = refl
check_tags-db u (i ∷ is) v w =
    let a = own_tag-db u i v w in
    let b = check_tags-db u is v (own_tag u i v w).1 in
    elim (Result-cases (own_tag u i v w).0) [
      | inl (t, q) ↦ ground arith
      | inr (e, q) ↦ ground arith
    ]

-- The tags of the numbers belong to the user.
check_tags_ok :
    (u : ℕ) (is : List ℕ) (v : Env) (w : World)
    → IsTagged w.db
    → (check_tags u is v w).0 ≡ ok tt
    → (i : ℕ) (s : Tag) → In i is
    → In s w.db.tags
    → s.id ≡ i
    → s.user_id ≡ u
unfolding check_tags
check_tags_ok u [] v w h k i s m n e = absurd (elim m [ ])
check_tags_ok u (j ∷ is) v w h k i s m n e = elim (Result-cases (own_tag u j v w).0) [
  | inr (x, q) ↦ absurd (ground arith)
  | inl (t, q) ↦ elim (In-cons m) [
    | inl z ↦
        let a = own_tag_ok u j v w t q in
        let b = first-some (has_tag j) w.db.tags t a.0 in
        let c = h.unique s t n b.0 (ground arith) in rw c a.1
    | inr z ↦
        let d = own_tag-db u j v w in
        check_tags_ok u is v (own_tag u j v w).1 (rw d h) (ground arith) i s z (rw d n) e
  ]
]

all_of-In : (u : ℕ) (fs : List File) (f : File) → all_of u fs ≡ true → In f fs → f.user_id ≡ u
all_of-In u [] f h m = absurd (elim m [ ])
all_of-In u (g ∷ fs) f h m = elim (In-cons m) [
  | inl e ↦ rw e (ground arith)
  | inr n ↦ all_of-In u fs f (ground arith) n
]

files_by_ids-db : (fs : List ℕ) (v : Env) (w : World) → (Files.files_by_ids fs v w).1.db ≡ w.db
unfolding Files.files_by_ids
files_by_ids-db [] v w = refl
files_by_ids-db (f ∷ fs) v w = ground arith

-- A row of one of the numbers is found.
files_by_ids_ok :
    (fs : List ℕ) (v : Env) (w : World) (gs : List File)
    → (Files.files_by_ids fs v w).0 ≡ ok gs
    → (g : File) → In g w.db.files
    → contains g.id fs ≡ true
    → In g gs
unfolding Files.files_by_ids
files_by_ids_ok [] v w gs q g m c = absurd (ground arith)
files_by_ids_ok (f ∷ fs) v w gs q g m c =
    let e : select (in_ids (f ∷ fs)) w.db.files ≡ gs = ground arith in
    rw (sym e) (select-In (in_ids (f ∷ fs)) w.db.files g m c)

module _ (u : ℕ) (ts fs : List ℕ) (v : Env) (w : World) (h : IsTagged w.db) where
  abbrev checked : Result (Unit {0}) × World
  checked = check_tags u ts v w

  abbrev found : Result (List File) × World
  found = Files.files_by_ids fs v checked.1

  found-db : found.1.db ≡ w.db
  found-db = files_by_ids-db fs v checked.1 ∙ check_tags-db u ts v w

  found_ok :
      (gs : List File)
      → found.0 ≡ ok gs
      → all_of u gs ≡ true
      → (f : ℕ) (g : File) → In f fs
      → In g w.db.files
      → g.id ≡ f
      → g.user_id ≡ u
  found_ok gs q a f g m n e = all_of-In u gs g a (
      files_by_ids_ok fs v checked.1 gs q g (rw (check_tags-db u ts v w) n)
        (rw e (In-contains f fs m)))

  pub attach_files-Kept : Kept w.db (Tags.attach_files u ts fs v w).1.db
  unfolding Tags.attach_files
  attach_files-Kept =
      let a = check_tags-db u ts v w in
      let b = found-db in
      elim (Result-cases checked.0) [
        | inr (x, q) ↦
            let e : (Tags.attach_files u ts fs v w).1.db ≡ w.db = ground arith in
            rw e (same-Kept w.db h)
        | inl (x, q) ↦ elim (Result-cases found.0) [
          | inr (x, k) ↦
              let e : (Tags.attach_files u ts fs v w).1.db ≡ w.db = ground arith in
              rw e (same-Kept w.db h)
          | inl (gs, k) ↦ elim (Bool-cases (all_of u gs)) [
            | inr z ↦
                let e : (Tags.attach_files u ts fs v w).1.db ≡ w.db = ground arith in
                rw e (same-Kept w.db h)
            | inl z ↦
                let e : (Tags.attach_files u ts fs v w).1.db ≡ (attach_each ts fs v found.1).1.db =
                  ground arith in
                let one : (f t : ℕ) → In f fs → In t ts → OfOne f t w.db = λ f t m n g s o p c d.
                  found_ok gs k z f g m o c ∙ sym (check_tags_ok u ts v w h q t s n p d) in
                rw e (
                  subst (λ y. Kept y (attach_each ts fs v found.1).1.db) b
                    (attach_each-Kept ts fs v found.1 (rw b h) (λ f t m n. rw b (one f t m n))))
          ]
        ]
      ]
