-- ===== src/Files/Place/BatchMove.antt =====
-- `BatchMove`: its second loop is one update of all the rows, and the call is a step of the
-- specification.
use networkdisk.Prelude.{
  ℕ, ◌≡◌, refl, sym, ap, ◌∙◌, false, ◌⊎◌, inl, inr, Option, none, some, List, [], ◌∷◌, arith, ◌==◌,
  Option-cases, Bool-cases, first, update,
}
use networkdisk.Model.{File, Db, Env, World}
use networkdisk.Exec.{Error, Result, ok, err, Result-cases, tick, put_db}
use networkdisk.Store.Sql.{has_id, in_ids, update_files}
use networkdisk.Store.Tx
use networkdisk.Store.Files
use networkdisk.Steps.{OwnsAll, Reach, reparent, done, step}
use networkdisk.Steps.Sound.{IsSound, OwnsAll-one}
use networkdisk.Files.Guards.{validate_parent_dir}
use networkdisk.Files.Place.{batch_move, check_moves, apply_moves, check_cycle}
use networkdisk.Files.Place.Refine.{is_descendant_of-db}

abbrev placed : List ℕ → Option ℕ → Db → Db
placed ids target d = update_files (in_ids ids) (λ f. record f { parent_id = target }) d

update_twice :
    (i : ℕ) (is : List ℕ) (target : Option ℕ) (fs : List File)
    → update
        (in_ids is)
        (λ f. record f { parent_id = target })
        (update (has_id i) (λ f. record f { parent_id = target }) fs)
      ≡ update (in_ids (i ∷ is)) (λ f. record f { parent_id = target }) fs
unfolding update
update_twice i is target [] = refl
update_twice i is target (f ∷ fs) = ground (arith, update_twice i is target fs)

update_none :
    (target : Option ℕ) (fs : List File)
    → update (in_ids []) (λ f. record f { parent_id = target }) fs ≡ fs
unfolding update
update_none target [] = refl
update_none target (f ∷ fs) = ap (λ gs. f ∷ gs) (update_none target fs)

abbrev moved_one : ℕ → Option ℕ → World → World
moved_one i target w =
    put_db (update_files (has_id i) (λ f. record f { parent_id = target }) w.db) (tick w)

-- If the loop of single updates succeeds, it has set the parent of the rows with the numbers at once
-- and changed nothing else.
pub apply_moves-eq-placed :
    (ids : List ℕ) (target : Option ℕ) (v : Env) (w : World)
    → (apply_moves ids target v w).0 ≡ ok tt
    → (apply_moves ids target v w).1.db ≡ placed ids target w.db
unfolding apply_moves Tx.update_file_parent_id
apply_moves-eq-placed [] target v w h =
    ap (λ fs. record (w.db) { files = fs }) (sym (update_none target w.db.files))
apply_moves-eq-placed (i ∷ is) target v w h = ground (
  arith,
  apply_moves-eq-placed is target v (moved_one i target w),
  update_twice i is target w.db.files,
)

check_cycle-db :
    (f : File) (i : ℕ) (target : Option ℕ) (v : Env) (w : World)
    → (check_cycle f i target v w).1.db ≡ w.db
unfolding check_cycle
check_cycle-db f i none v w = refl
check_cycle-db f i (some t) v w = ground (arith, is_descendant_of-db t i v w)

module _ (target : Option ℕ) (u : ℕ) (v : Env) where
  -- The world after the checks of one row.
  abbrev after_one : ℕ → File → World → World
  after_one i f w = tick (check_cycle f i target v (tick w)).1

  check_moves-db : (ids : List ℕ) (w : World) → (check_moves ids target u v w).1.db ≡ w.db
  unfolding check_moves Tx.file_by_id Tx.file_name_exists
  check_moves-db [] w = refl
  check_moves-db (i ∷ is) w = elim (Option-cases (first (has_id i) w.db.files)) [
    | inl absent ↦ ground arith
    | inr (f, found) ↦
        ground (arith, check_cycle-db f i target v (tick w), check_moves-db is (after_one i f w))
  ]

  -- Whatever has passed the checks is `u`'s.
  check_moves-OwnsAll :
      (ids : List ℕ) (w : World) (d : Db)
      → w.db ≡ d
      → IsSound d
      → (check_moves ids target u v w).0 ≡ ok tt
      → OwnsAll u ids d
  unfolding check_moves Tx.file_by_id Tx.file_name_exists
  check_moves-OwnsAll [] w d same s h x m k = cc
  check_moves-OwnsAll (i ∷ is) w d same s h x m k =
      elim (Option-cases (first (has_id i) w.db.files)) [
        | inl absent ↦ ground arith
        | inr (f, found) ↦
            let owner : f.user_id ≡ u = ground arith in
            elim (Bool-cases (x.id == i)) [
              | inl this ↦
                  OwnsAll-one {f = f} s (record { found = rw (← same) found; owner = owner }) x m
                    this
              | inr other ↦
                  check_moves-OwnsAll is (after_one i f w) d
                    (check_cycle-db f i target v (tick w) ∙ same) s (ground arith) x m
                    (ground arith)
            ]
      ]

module _ (i : ℕ) (is : List ℕ) (u : ℕ) (v : Env) (w : World) where
  -- The world in which the checks begin: after the target has been validated and BEGIN.
  abbrev at_checks : Option ℕ → World
  at_checks none = tick w
  at_checks (some p) = tick (tick w)

  abbrev checks : Option ℕ → Result (Unit {0}) × World
  checks target = check_moves (i ∷ is) target u v (at_checks target)

  abbrev moves : Option ℕ → Result (Unit {0}) × World
  moves target = apply_moves (i ∷ is) target v (checks target).1

  check_failed :
      (target : Option ℕ) (e : Error)
      → (checks target).0 ≡ err e
      → (batch_move (i ∷ is) target u v w).1.db ≡ w.db
  unfolding batch_move validate_parent_dir Files.file_by_id
  check_failed none e h = ground (arith, check_moves-db none u v (i ∷ is) (at_checks none))
  check_failed (some p) e h =
      ground (arith, check_moves-db (some p) u v (i ∷ is) (at_checks (some p)))

  move_failed :
      (target : Option ℕ) (e : Error)
      → (checks target).0 ≡ ok tt
      → (moves target).0 ≡ err e
      → (batch_move (i ∷ is) target u v w).1.db ≡ w.db
  unfolding batch_move validate_parent_dir Files.file_by_id
  move_failed none e h k = ground (arith, check_moves-db none u v (i ∷ is) (at_checks none))
  move_failed (some p) e h k =
      ground (arith, check_moves-db (some p) u v (i ∷ is) (at_checks (some p)))

  moved_root :
      (checks none).0 ≡ ok tt
      → (moves none).0 ≡ ok tt
      → ((batch_move (i ∷ is) none u v w).1.db ≡ w.db)
        ⊎ ((batch_move (i ∷ is) none u v w).1.db ≡ placed (i ∷ is) none w.db)
  unfolding batch_move
  moved_root h k = ground (
    arith,
    check_moves-db none u v (i ∷ is) (at_checks none),
    apply_moves-eq-placed (i ∷ is) none v (checks none).1 k,
  )

  moved_absent :
      (p : ℕ)
      → first (has_id p) w.db.files ≡ none
      → (batch_move (i ∷ is) (some p) u v w).1.db ≡ w.db
  unfolding batch_move validate_parent_dir Files.file_by_id
  moved_absent p h = ground arith

  moved_in :
      (p : ℕ) (g : File)
      → first (has_id p) w.db.files ≡ some g
      → (checks (some p)).0 ≡ ok tt
      → (moves (some p)).0 ≡ ok tt
      → ((batch_move (i ∷ is) (some p) u v w).1.db ≡ w.db)
        ⊎ ((g.user_id ≡ u)
            × ((batch_move (i ∷ is) (some p) u v w).1.db ≡ placed (i ∷ is) (some p) w.db))
  unfolding batch_move validate_parent_dir Files.file_by_id
  moved_in p g f h k = ground (
    arith,
    check_moves-db (some p) u v (i ∷ is) (at_checks (some p)),
    apply_moves-eq-placed (i ∷ is) (some p) v (checks (some p)).1 k,
  )

  moved-Reach :
      (target : Option ℕ)
      → IsSound w.db
      → (checks target).0 ≡ ok tt
      → (moves target).0 ≡ ok tt
      → Reach v u false w.db (batch_move (i ∷ is) target u v w).1.db
  moved-Reach none s h k = elim (moved_root h k) [
    | inl same ↦ done same
    | inr e ↦
        step
          (reparent (i ∷ is) none refl
            (check_moves-OwnsAll none u v (i ∷ is) (at_checks none) w.db refl s h) tt refl)
          (done e)
  ]
  moved-Reach (some p) s h k = elim (Option-cases (first (has_id p) w.db.files)) [
    | inl absent ↦ done (moved_absent p absent)
    | inr (g, held) ↦ elim (moved_in p g held h k) [
      | inl same ↦ done same
      | inr (owner, e) ↦
          step
            (reparent (i ∷ is) (some p) refl
              (check_moves-OwnsAll (some p) u v (i ∷ is) (at_checks (some p)) w.db refl s h)
              (g, record { found = held; owner = owner }) refl)
            (done e)
    ]
  ]

-- A call of `batch_move` is a sequence of steps.
pub batch_move-Reach :
    (ids : List ℕ) (target : Option ℕ) (u : ℕ) (v : Env) (w : World)
    → IsSound w.db
    → Reach v u false w.db (batch_move ids target u v w).1.db
unfolding batch_move
batch_move-Reach [] target u v w s = done refl
batch_move-Reach (i ∷ is) target u v w s = elim (Result-cases (checks i is u v w target).0) [
  | inr (e, h) ↦ done (check_failed i is u v w target e h)
  | inl (a, h) ↦ elim (Result-cases (moves i is u v w target).0) [
    | inr (e, k) ↦ done (move_failed i is u v w target e h k)
    | inl (b, k) ↦ moved-Reach i is u v w target s h k
  ]
]
