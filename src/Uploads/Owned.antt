-- ===== src/Uploads/Owned.antt =====
-- The directories that the sessions of uploads name: whose they are, from the start of a session to its
-- end.
use networkdisk.Prelude.{
  ℕ, ◌≤◌, ◌≡◌, refl, sym, ap, ◌∙◌, inl, inr, true, not, ◌&&◌, Option, none, some, [], ◌∷◌, In,
  In-update, arith, ltb, Option-cases, Bool-cases, first, first-some, first-none, any-true,
}
use networkdisk.Model.{File, Db, World, UploadDir, UploadSession}
use networkdisk.Store.Sql.{has_id, in_ids, trashed, parent_exists}
use networkdisk.Steps.{MayHold}
use networkdisk.Steps.Sound.{IsSound}
use networkdisk.Steps.Owners.{KeepsOwners}
use networkdisk.Files.Guards.{OverwriteTarget}
use networkdisk.Uploads.Placed.{retired}

-- The directory that a session names has been given, and if it is there it is the user's.
abbrev pub GoodSession : Db → UploadSession → Type 0
GoodSession d s =
    (p : ℕ)
    → s.parent_id ≡ some p
    → (p ≤ d.last_file) × ((g : File) → In g d.files → g.id ≡ p → g.user_id ≡ s.user_id)

pub record IsReady (w : World) : Type 0 where
  pub sound : IsSound w.db
  pub sessions : (x : UploadDir) → In x w.uploads → GoodSession w.db x.session

pub GoodSession-KeepsOwners :
    (d d' : Db) (s : UploadSession) → KeepsOwners d d' → GoodSession d s → GoodSession d' s
GoodSession-KeepsOwners d d' s k h p e =
    let r = h p e in
    (
      omega (arith, r.0, k.grows),
      λ g m i. let x = k.from g m (omega (arith, i, r.0)) in sym x.3 ∙ r.1 x.0 x.1 (x.2 ∙ i),
    )

-- A row that is there after a retirement was there, with its number and owner.
retired-In :
    (old : Option OverwriteTarget) (u now : ℕ) (d : Db) (g : File)
    → In g (retired old u now d).files
    → (h : File) × In h d.files × (h.id ≡ g.id)
retired-In none u now d g m = (g, m, refl)
retired-In (some t) u now d g m =
    let x =
      In-update (in_ids (t.id ∷ [])) (trashed now) d.files g
        (elim (Bool-cases (not t.is_dir && ltb 0 t.size)) [
          | inl q ↦ rw q at m
          | inr q ↦ rw q at m
        ]) in
    (
      x.0,
      x.1,
      elim (Bool-cases (in_ids (t.id ∷ []) x.0)) [
        | inl q ↦ sym (ap (λ (z : File). z.id) (rw q at x.2))
        | inr q ↦ sym (ap (λ (z : File). z.id) (rw q at x.2))
      ],
    )

-- The directory of a session that is still there may hold a row of the session's user.
pub session-MayHold :
    (d : Db) (s : UploadSession) (old : Option OverwriteTarget) (now : ℕ) (parent : Option ℕ)
    → s.parent_id ≡ parent
    → GoodSession d s
    → parent_exists parent (retired old s.user_id now d) ≡ true
    → MayHold s.user_id parent d
session-MayHold d s old now none e good h = tt
session-MayHold d s old now (some p) e good h =
    let a = any-true (has_id p) (retired old s.user_id now d).files h in
    let b = retired-In old s.user_id now d a.0 a.1 in
    elim (Option-cases (first (has_id p) d.files)) [
      | inl q ↦ absurd (let k = first-none (has_id p) d.files b.0 q b.1 in ground arith)
      | inr (g, q) ↦
          let c = first-some (has_id p) d.files g q in
          (g, record { found = q; owner = (good p e).1 g c.0 (ground arith) })
    ]

-- A session that names a directory that the user may fill is good.
pub MayHold-GoodSession :
    (d : Db) (s : UploadSession) (parent : Option ℕ)
    → IsSound d
    → s.parent_id ≡ parent
    → MayHold s.user_id parent d
    → GoodSession d s
MayHold-GoodSession d s none sound e h p q = absurd (ground arith)
MayHold-GoodSession d s (some k) sound e h p q =
    let a = first-some (has_id k) d.files h.0 h.1.found in
    let same : k ≡ p = ground arith in
    (
      let b = sound.bounded h.0 a.0 in ground arith,
      λ g m i. let b = sound.unique g h.0 m a.0 (ground arith) in rw b h.1.owner,
    )
