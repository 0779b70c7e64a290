-- ===== src/Uploads/Opened.antt =====
-- What `InitUpload` does to the directories of sessions.
use networkdisk.Prelude.{
  ℕ, ◌≡◌, refl, not, In, In-cons, In-select, ◌⊎◌, inl, inr, Option, none, some, List, arith,
  Option-cases, first,
}
use networkdisk.Text.{Text, trim_space}
use networkdisk.Model.{File, Env, World, UploadSession, UploadDir}
use networkdisk.Exec.{ok, Result-cases, tick, draw}
use networkdisk.Store.Sql.{has_id}
use networkdisk.Store.Files
use networkdisk.Steps.{MayHold}
use networkdisk.Files.Guards.{validate_parent_dir, validate_extension}
use networkdisk.Uploads.Chunks as Chunks
use networkdisk.Uploads.Chunks.{
  is_upload, saved, put_chunk, is_stale, load_own, save_upload_session,
}

draw-db : (v : Env) (w : World) → (draw v w).1.db ≡ w.db
unfolding draw
draw-db v w = elim (Option-cases (w.random w.draws)) [
  | inl q ↦ ground arith
  | inr (t, q) ↦ ground arith
]

draw-uploads : (v : Env) (w : World) → (draw v w).1.uploads ≡ w.uploads
unfolding draw
draw-uploads v w = elim (Option-cases (w.random w.draws)) [
  | inl q ↦ ground arith
  | inr (t, q) ↦ ground arith
]

draw-now : (v : Env) (w : World) → (draw v w).1.now ≡ w.now
unfolding draw
draw-now v w = elim (Option-cases (w.random w.draws)) [
  | inl q ↦ ground arith
  | inr (t, q) ↦ ground arith
]

pub saved-In :
    (s : UploadSession) (now : ℕ) (ups : List UploadDir) (x : UploadDir)
    → In x (saved s now ups)
    → (x.session ≡ s) ⊎ In x ups
unfolding saved
saved-In s now ups x m = elim (Option-cases (first (is_upload s.upload_id) ups)) [
  | inl q ↦ elim (In-cons (rw (q, saved) at m)) [ inl e ↦ inl (rw e refl) | inr k ↦ inr k ]
  | inr (y, q) ↦ elim (In-cons (rw (q, saved) at m)) [
    | inl e ↦ inl (rw e refl)
    | inr k ↦ inr (In-select (λ (y : UploadDir). not (is_upload s.upload_id y)) ups x k).0
  ]
]

module _ (u : ℕ) (n : Text) (total : ℕ) (v : Env) (w : World) where
  abbrev pub opened : Option ℕ → Text → World → List UploadDir
  opened parent i z = saved (Chunks.session_of u parent (trim_space n) total i v z) z.now w.uploads

  -- Either the sessions are as before, or one is saved, of a directory of the user's.
  abbrev pub after : Option ℕ → World
  after parent = (Chunks.init_upload u parent n total v w).1

  abbrev pub InitEffect : Option ℕ → Type 0
  InitEffect parent =
      ((after parent).db ≡ w.db)
      × (((after parent).uploads ≡ w.uploads)
          ⊎ ((i : Text) × (z : World) × MayHold u parent w.db
              × ((after parent).uploads ≡ opened parent i z)))

  init_root :
      (i : Text)
      → (draw v w).0 ≡ ok i
      → ((after none).db ≡ w.db)
        × (((after none).uploads ≡ w.uploads) ⊎ ((after none).uploads ≡ opened none i (draw v w).1))
  unfolding Chunks.init_upload validate_extension save_upload_session
  init_root i h =
      let a = draw-db v w in
      let b = draw-uploads v w in let c = draw-now v w in (ground arith, ground arith)

  init_in :
      (p : ℕ) (g : File) (i : Text)
      → first (has_id p) w.db.files ≡ some g
      → (draw v (tick w)).0 ≡ ok i
      → ((after (some p)).db ≡ w.db)
        × (((after (some p)).uploads ≡ w.uploads)
            ⊎ ((g.user_id ≡ u)
                × ((after (some p)).uploads ≡ opened (some p) i (draw v (tick w)).1)))
  unfolding Chunks.init_upload validate_extension validate_parent_dir Files.file_by_id
      save_upload_session
  init_in p g i f h =
      let a = draw-db v (tick w) in
      let b = draw-uploads v (tick w) in let c = draw-now v (tick w) in (ground arith, ground arith)

  pub init_effect : (parent : Option ℕ) → InitEffect parent
  unfolding Chunks.init_upload validate_extension validate_parent_dir Files.file_by_id
  init_effect none = elim (Result-cases (draw v w).0) [
    | inr (e, h) ↦
        let a = draw-db v w in let b = draw-uploads v w in (ground arith, inl (ground arith))
    | inl (i, h) ↦
        let r = init_root i h in
        (r.0, elim r.1 [ inl e ↦ inl e | inr e ↦ inr (i, (draw v w).1, tt, e) ])
  ]
  init_effect (some p) = elim (Option-cases (first (has_id p) w.db.files)) [
    | inl f ↦ (ground arith, inl (ground arith))
    | inr (g, f) ↦ elim (Result-cases (draw v (tick w)).0) [
      | inr (e, h) ↦
          let a = draw-db v (tick w) in
          let b = draw-uploads v (tick w) in (ground arith, inl (ground arith))
      | inl (i, h) ↦
          let r = init_in p g i f h in
          (
            r.0,
            elim r.1 [
              | inl e ↦ inl e
              | inr (o, e) ↦ inr (i, (draw v (tick w)).1, (g, record { found = f; owner = o }), e)
            ],
          )
    ]
  ]
