-- ===== src/Tags/Rows.antt =====
-- Requests on files leave the tags and the pairs; rows keep their owners.
use networkdisk.Prelude.{ℕ, ◌≡◌, refl, sym, ◌∙◌, Bool, arith}
use networkdisk.Model.{Db, Env}
use networkdisk.Steps.{
  Change, Reach, rename, move, star, create, add, trash, purge, charge, restore, reparent, done,
  step,
}
use networkdisk.Steps.Owners.{Change-KeepsOwners}
use networkdisk.Tags.Owned.{IsTagged}

record SameTags (d d' : Db) : Type 0 where
  tags : d'.tags ≡ d.tags
  last_tag : d'.last_tag ≡ d.last_tag
  pairs : d'.file_tags ≡ d.file_tags

Change-SameTags :
    {v : Env} {u : ℕ} {strict : Bool} (d d' : Db) → Change v u strict d d' → SameTags d d'
Change-SameTags d d' (rename i n f o c e) =
    rw e (record { tags = refl; last_tag = refl; pairs = refl })
Change-SameTags d d' (move i parent f o h c e) =
    rw e (record { tags = refl; last_tag = refl; pairs = refl })
Change-SameTags d d' (star i f o e) = rw e (record { tags = refl; last_tag = refl; pairs = refl })
Change-SameTags d d' (create f o h c e) =
    rw e (record { tags = refl; last_tag = refl; pairs = refl })
Change-SameTags d d' (add f t o h e) = rw e (record { tags = refl; last_tag = refl; pairs = refl })
Change-SameTags d d' (trash ids now o e) =
    rw e (record { tags = refl; last_tag = refl; pairs = refl })
Change-SameTags d d' (purge ids o e) = rw e (record { tags = refl; last_tag = refl; pairs = refl })
Change-SameTags d d' (charge delta e) = rw e (record { tags = refl; last_tag = refl; pairs = refl })
Change-SameTags d d' (restore ids t o e) =
    rw e (record { tags = refl; last_tag = refl; pairs = refl })
Change-SameTags d d' (reparent ids parent t o h e) =
    rw e (record { tags = refl; last_tag = refl; pairs = refl })

Change-IsTagged :
    {v : Env} {u : ℕ} {strict : Bool} (d d' : Db)
    → Change v u strict d d'
    → IsTagged d
    → IsTagged d'
Change-IsTagged d d' c h =
    let k = Change-KeepsOwners d d' c in
    let q = Change-SameTags d d' c in
    record {
      files = k.given h.files;
      tags = λ s m. rw q.last_tag (h.tags s (rw q.tags at m));
      unique = λ s t m n e. h.unique s t (rw q.tags at m) (rw q.tags at n) e;
      links = λ f t m.
          let a = h.links f t (rw q.pairs at m) in
          let b = k.grows in
          let low = a.0 in
          (
            omega (arith, b, low),
            rw q.last_tag a.1,
            λ g s n o x y.
                let z = k.from g n (omega (arith, x, low)) in
                sym z.3 ∙ a.2 z.0 s z.1 (rw q.tags at o) (z.2 ∙ x) y,
          );
    }

pub Reach-IsTagged :
    {v : Env} {u : ℕ} {strict : Bool} (d d' : Db) → Reach v u strict d d' → IsTagged d → IsTagged d'
Reach-IsTagged d d' (done e) h = rw e h
Reach-IsTagged d d' (step {e = m} c r) h = Reach-IsTagged m d' r (Change-IsTagged d m c h)
