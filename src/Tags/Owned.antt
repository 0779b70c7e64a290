-- ===== src/Tags/Owned.antt =====
-- Tags and the files that bear them belong to one user.
use networkdisk.Prelude.{
  ℕ, ◌≤◌, ◌≡◌, refl, ap, ◌∙◌, not, ◌&&◌, List, [], ◌∷◌, In, In-cons, here, there, arith, Bool-cases,
  inl, inr, any, any-true,
}
use networkdisk.Model.{File, Tag, Db, Env, World}
use networkdisk.Exec.{tick, put_db}
use networkdisk.Store.Sql.{has_id}
use networkdisk.Store.Tags.{has_tag, is_link, link, link_all}

-- The rows of a file and a tag, where they are there, belong to one user.
abbrev pub OfOne : ℕ → ℕ → Db → Type 0
OfOne f t d =
    (h : File) (s : Tag) → In h d.files → In s d.tags → h.id ≡ f → s.id ≡ t → h.user_id ≡ s.user_id

pub record IsTagged (d : Db) : Type 0 where
  pub files : (h : File) → In h d.files → h.id ≤ d.last_file
  pub tags : (s : Tag) → In s d.tags → s.id ≤ d.last_tag
  pub unique : (s t : Tag) → In s d.tags → In t d.tags → s.id ≡ t.id → s ≡ t
  pub links : (f t : ℕ) → In (f, t) d.file_tags → (f ≤ d.last_file) × (t ≤ d.last_tag) × OfOne f t d

-- The pairs may change, the rows do not.
pub record Kept (d d' : Db) : Type 0 where
  pub files : d'.files ≡ d.files
  pub last_file : d'.last_file ≡ d.last_file
  pub tags : d'.tags ≡ d.tags
  pub tagged : IsTagged d'

pub same-Kept : (d : Db) → IsTagged d → Kept d d
same-Kept d h = record { files = refl; last_file = refl; tags = refl; tagged = h }

pub trans-Kept : (a b c : Db) → Kept a b → Kept b c → Kept a c
trans-Kept a b c h k = record {
  files = k.files ∙ h.files;
  last_file = k.last_file ∙ h.last_file;
  tags = k.tags ∙ h.tags;
  tagged = k.tagged;
}

pub OfOne-Kept : (f t : ℕ) (d d' : Db) → Kept d d' → OfOne f t d → OfOne f t d'
OfOne-Kept f t d d' k h g s m n = h g s (rw k.files at m) (rw k.tags at n)

link-Kept : (f t : ℕ) (d : Db) → IsTagged d → OfOne f t d → Kept d (link f t d)
link-Kept f t d h one =
    elim (Bool-cases
      (any (has_id f) d.files && any (has_tag t) d.tags && not (any (is_link f t) d.file_tags))) [
        | inr e ↦ rw (link, e) (same-Kept d h)
        | inl e ↦
            let a = any-true (has_id f) d.files (ground arith) in
            let b = any-true (has_tag t) d.tags (ground arith) in
            rw (link, e)
              (record {
                files = refl;
                last_file = refl;
                tags = refl;
                tagged = record {
                  files = h.files;
                  tags = h.tags;
                  unique = h.unique;
                  links = λ g s m. elim (In-cons m) [
                    | inr n ↦ h.links g s n
                    | inl q ↦
                        let x : g ≡ f = ap (λ (p : ℕ × ℕ). p.0) q in
                        let y : s ≡ t = ap (λ (p : ℕ × ℕ). p.1) q in
                        let z : f ≤ d.last_file = let k = h.files a.0 a.1 in ground arith in
                        let w : t ≤ d.last_tag = let k = h.tags b.0 b.1 in ground arith in
                        rw (x, y) (z, w, one)
                  ];
                };
              })
      ]

pub link_all-Kept :
    (f : ℕ) (ts : List ℕ) (v : Env) (w : World)
    → IsTagged w.db
    → ((t : ℕ) → In t ts → OfOne f t w.db)
    → Kept w.db (link_all f ts v w).1.db
unfolding link_all
link_all-Kept f [] v w h one = same-Kept w.db h
link_all-Kept f (t ∷ ts) v w h one = elim (Bool-cases (w.faults w.calls)) [
  | inl e ↦ rw (link_all, e) (same-Kept w.db h)
  | inr e ↦
      let k = link-Kept f t w.db h (one t (here refl)) in
      rw (link_all, e)
        (trans-Kept w.db (link f t w.db) _ k (
          link_all-Kept f ts v (put_db (link f t w.db) (tick w)) k.tagged
            (λ s m. OfOne-Kept f s w.db (link f t w.db) k (one s (there m)))))
]
