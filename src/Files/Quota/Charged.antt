-- ===== src/Files/Quota/Charged.antt =====
-- What a user is charged against the bytes of the user's live files.
use networkdisk.Prelude.{
  ℕ, ◌+◌, ◌≡◌, ap, sym, ◌∙◌, true, ◌⊎◌, inl, inr, none, some, arith, ◌==◌, Option-cases, Bool-cases,
  In, In-update, first, first-some, if◌then◌else◌,
}
use networkdisk.Prelude.Int.{ℤ, pos, pos_part, neg_part, ◌+ℤ◌, ◌-ℤ◌, is_zero, int_laws}
use networkdisk.Model.{User, Db, Env, World}
use networkdisk.Exec.{ok}
use networkdisk.Store.Users.{update_users, add_used, update_user_storage_used, user_by_id}
use networkdisk.Store.Files.{sum_active_storage}
use networkdisk.Files.Quota.{calibrate_storage}
use networkdisk.Files.Quota.Calibrate.{active, IsCharged, UniqueUsers}

charged_row :
    (u a b : ℕ) (delta : ℤ) (x y : User)
    → x ≡ (if y.id == u then add_used delta y else y)
    → (y.id ≡ u → y.storage_used ≡ a)
    → x.id ≡ u
    → pos_part delta + a ≡ neg_part delta + b
    → x.storage_used ≡ b
unfolding add_used
charged_row u a b delta x y q h i s = elim (Bool-cases (y.id == u)) [
  | inl e ↦
      let t : x.storage_used ≡ pos_part (pos y.storage_used +ℤ delta) =
        ap (λ (z : User). z.storage_used) (rw e at q) in
      let o = h (ground arith) in grind int_laws
  | inr e ↦ let t : x.id ≡ y.id = ap (λ (z : User). z.id) (rw e at q) in ground arith
]

-- If the charge and the live bytes change by the same amount, they stay equal.
pub IsCharged-by :
    (u : ℕ) (delta : ℤ) (d d' : Db)
    → IsCharged u d
    → d'.users ≡ (update_users u (add_used delta) d).users
    → pos_part delta + active u d ≡ neg_part delta + active u d'
    → IsCharged u d'
IsCharged-by u delta d d' h e s x m i =
    let r = In-update (λ (x : User). x.id == u) (add_used delta) d.users x (rw e at m) in
    charged_row u (active u d) (active u d') delta x r.0 r.2 (h r.0 r.1) i s

zero_difference : (a b : ℕ) → is_zero (pos a -ℤ pos b) ≡ true → a ≡ b
zero_difference a b h = grind int_laws

difference_parts : (a b : ℕ) → pos_part (pos a -ℤ pos b) + b ≡ neg_part (pos a -ℤ pos b) + a
difference_parts a b = grind int_laws

module _ (u : ℕ) (v : Env) (w : World) where
  calibrate_ok :
      (x : User)
      → first (λ x. x.id == u) w.db.users ≡ some x
      → (calibrate_storage u v w).0 ≡ ok tt
      → (((calibrate_storage u v w).1.db ≡ w.db) × (active u w.db ≡ x.storage_used))
        ⊎ ((calibrate_storage u v w).1.db
            ≡ update_users u (add_used (pos (active u w.db) -ℤ pos x.storage_used)) w.db)
  unfolding calibrate_storage sum_active_storage user_by_id update_user_storage_used
  calibrate_ok x e h = elim (Bool-cases (is_zero (pos (active u w.db) -ℤ pos x.storage_used))) [
    | inl z ↦
        let q : active u w.db ≡ x.storage_used = zero_difference (active u w.db) x.storage_used z in
        ground arith
    | inr z ↦ ground arith
  ]

  calibrate_unknown :
      first (λ x. x.id == u) w.db.users ≡ none → (calibrate_storage u v w).0 ≡ ok tt → ⊥
  unfolding calibrate_storage sum_active_storage user_by_id
  calibrate_unknown e h = ground arith

-- A successful calibration makes what the user is charged equal to the bytes of the user's live files, if numbers of users are unique.
pub calibrate_storage-IsCharged :
    (u : ℕ) (v : Env) (w : World)
    → UniqueUsers w.db
    → (calibrate_storage u v w).0 ≡ ok tt
    → IsCharged u (calibrate_storage u v w).1.db
calibrate_storage-IsCharged u v w unique h =
    elim (Option-cases (first (λ x. x.id == u) w.db.users)) [
      | inl absent ↦ absurd (calibrate_unknown u v w absent h)
      | inr (x, found) ↦
          let mine = first-some (λ (x : User). x.id == u) w.db.users x found in
          let only : (y : User) → In y w.db.users → y.id ≡ u → y ≡ x =
            λ y m i. unique y x m mine.0 (ground arith) in
          elim (calibrate_ok u v w x found h) [
            | inl (same, e) ↦
                rw same (λ y m i. ap (λ (z : User). z.storage_used) (only y m i) ∙ sym e)
            | inr e ↦ rw e (λ y m i.
                let r =
                  In-update (λ (x : User). x.id == u)
                    (add_used (pos (active u w.db) -ℤ pos x.storage_used)) w.db.users y m in
                charged_row u x.storage_used (active u w.db)
                  (pos (active u w.db) -ℤ pos x.storage_used) y r.0 r.2
                  (λ k. ap (λ (z : User). z.storage_used) (only r.0 r.1 k)) i
                  (difference_parts (active u w.db) x.storage_used))
          ]
    ]
