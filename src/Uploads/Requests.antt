-- ===== src/Uploads/Requests.antt =====
-- The calls that upload, and what any sequence of them keeps, among the other requests.
use mathlib.Core.Path.{subst}
use networkdisk.Prelude.{
  ℕ, ◌≡◌, refl, sym, ap, ◌∙◌, ◌⊎◌, inl, inr, Bool, true, false, not, Option, In, In-select,
  In-update, arith, update, if◌then◌else◌,
}
use networkdisk.Text.{Text, trim_space, leading}
use networkdisk.Model.{Env, World, UploadDir}
use networkdisk.Exec.{Result-cases}
use networkdisk.Steps.{Reach, done}
use networkdisk.Steps.Sound.{Reach-IsSound}
use networkdisk.Steps.Owners.{Reach-KeepsOwners}
use networkdisk.Uploads as Uploads
use networkdisk.Uploads.Chunks as Chunks
use networkdisk.Uploads.Chunks.{
  is_upload, new_dir, saved, put_chunk, drop_chunk, is_stale, session_of, load_own,
  save_upload_session,
}
use networkdisk.Uploads.Opened.{saved-In, init_effect}
use networkdisk.Uploads.Owned.{
  GoodSession, IsReady, GoodSession-KeepsOwners, MayHold-GoodSession, session-MayHold,
}
use networkdisk.Uploads.Whole.{
  load-world, load_ok, complete_refused, complete-Uploaded, upload-Uploaded,
}
use networkdisk.Uploads.Frame.{upload_file-uploads}
use networkdisk.Uploads.Sessions.{complete-Within, cancel-Within}
use networkdisk.Uploads.Refine.{Placement-Reach}

pub data Call : Type 0 where
  upload_file : Text → Text → Option ℕ → Call
  init_upload : Option ℕ → Text → ℕ → Call
  upload_chunk : Text → ℕ → Text → Call
  complete_upload : Text → Call
  cancel_upload : Text → Call
  clean_stale_chunks : Call

-- The state after a call, whether it succeeds or fails.
pub handle : ℕ → Call → Env → World → World
handle u (upload_file body n parent) v w = (Uploads.upload_file body n parent u v w).1
handle u (init_upload parent n total) v w = (Chunks.init_upload u parent n total v w).1
handle u (upload_chunk i k body) v w = (Chunks.upload_chunk i k body u v w).1
handle u (complete_upload i) v w = (Chunks.complete_upload i u v w).1
handle u (cancel_upload i) v w = (Chunks.cancel_upload i u v w).1
handle u clean_stale_chunks v w = (Chunks.clean_stale_chunks v w).1

module _ (u : ℕ) (v : Env) (w : World) (ready : IsReady w) where
  upload-Reach :
      (body n : Text) (parent : Option ℕ)
      → Reach v u false w.db (Uploads.upload_file body n parent u v w).1.db
  upload-Reach body n parent = elim (upload-Uploaded body n u v w parent ready.sound) [
    | inl e ↦ done e
    | inr (h, inl e) ↦ done e
    | inr (h, inr m) ↦ Placement-Reach u parent w.db _ h m
  ]

  complete-Reach : (i : Text) → Reach v u false w.db (Chunks.complete_upload i u v w).1.db
  complete-Reach i = elim (Result-cases (load_own i u v w).0) [
    | inr (e, h) ↦ done (complete_refused i u v w e h)
    | inl (x, h) ↦ elim (complete-Uploaded i u v w x h) [
      | inl e ↦ done e
      | inr m ↦
          let good = (ready.sessions x (load_ok i u v w x h).0) in
          let r =
            Placement-Reach {v = v} x.session.user_id x.session.parent_id w.db _
              (session-MayHold w.db x.session m.old m.now x.session.parent_id refl good m.there)
              m in
          subst (λ k. Reach v k false w.db (Chunks.complete_upload i u v w).1.db)
            (load_ok i u v w x h).1 r
    ]
  ]

  init-db :
      (parent : Option ℕ) (n : Text) (total : ℕ)
      → (Chunks.init_upload u parent n total v w).1.db ≡ w.db
  init-db parent n total = (init_effect u n total v w parent).0

  chunk-db : (i : Text) (k : ℕ) (body : Text) → (Chunks.upload_chunk i k body u v w).1.db ≡ w.db
  unfolding Chunks.upload_chunk Chunks.store_chunk
  chunk-db i k body =
      let a = load-world i u v w in
      elim (Result-cases (load_own i u v w).0) [
        | inl (x, h) ↦ ground arith
        | inr (e, h) ↦ ground arith
      ]

  cancel-db : (i : Text) → (Chunks.cancel_upload i u v w).1.db ≡ w.db
  unfolding Chunks.cancel_upload Chunks.cleanup_upload_session
  cancel-db i =
      let a = load-world i u v w in
      elim (Result-cases (load_own i u v w).0) [
        | inl (x, h) ↦ ground arith
        | inr (e, h) ↦ ground arith
      ]

  -- A call of a user that uploads, whether it succeeds or fails, is a sequence of steps of the
  -- specification on behalf of that user, from a state that is ready for it.
  pub handle-Reach : (c : Call) → Reach v u false w.db (handle u c v w).db
  unfolding handle Chunks.clean_stale_chunks
  handle-Reach (upload_file body n parent) = upload-Reach body n parent
  handle-Reach (init_upload parent n total) = done (init-db parent n total)
  handle-Reach (upload_chunk i k body) = done (chunk-db i k body)
  handle-Reach (complete_upload i) = complete-Reach i
  handle-Reach (cancel_upload i) = done (cancel-db i)
  handle-Reach clean_stale_chunks = done refl

put_session :
    (b : Bool) (y x : UploadDir) (f : UploadDir → UploadDir)
    → ((z : UploadDir) → (f z).session ≡ z.session)
    → x ≡ (if b then f y else y)
    → y.session ≡ x.session
put_session true y x f h e = sym (ap (λ (z : UploadDir). z.session) e ∙ h y)
put_session false y x f h e = sym (ap (λ (z : UploadDir). z.session) e)

module _ (u : ℕ) (v : Env) (w : World) (ready : IsReady w) where
  init-sessions :
      (parent : Option ℕ) (n : Text) (total : ℕ) (x : UploadDir)
      → In x (Chunks.init_upload u parent n total v w).1.uploads
      → GoodSession (Chunks.init_upload u parent n total v w).1.db x.session
  init-sessions parent n total x m =
      let r = init_effect u n total v w parent in
      rw r.0 (elim r.1 [
        | inl e ↦ ready.sessions x (rw e at m)
        | inr (i, z, h, e) ↦
            let s = session_of u parent (trim_space n) total i v z in
            elim (saved-In s z.now w.uploads x (rw e at m)) [
              | inl q ↦ rw q (MayHold-GoodSession w.db s parent ready.sound refl h)
              | inr q ↦ ready.sessions x q
            ]
      ])

  changed-from :
      (i : Text) (f : UploadDir → UploadDir)
      → ((z : UploadDir) → (f z).session ≡ z.session)
      → (x : UploadDir) → In x (update (is_upload i) f w.uploads)
      → (y : UploadDir) × In y w.uploads × (y.session ≡ x.session)
  changed-from i f same x m =
      let r = In-update (is_upload i) f w.uploads x m in
      (r.0, r.1, put_session (is_upload i r.0) r.0 x f same r.2)

  chunk-from :
      (i : Text) (k : ℕ) (body : Text) (x : UploadDir)
      → In x (Chunks.upload_chunk i k body u v w).1.uploads
      → (y : UploadDir) × In y w.uploads × (y.session ≡ x.session)
  unfolding Chunks.upload_chunk Chunks.store_chunk
  chunk-from i k body x m =
      let a = load-world i u v w in
      elim (Result-cases (load_own i u v w).0) [
        | inr (e, h) ↦
            let q : (Chunks.upload_chunk i k body u v w).1.uploads ≡ w.uploads = ground arith in
            (x, rw q at m, refl)
        | inl (y, h) ↦
            let q : ((Chunks.upload_chunk i k body u v w).1.uploads ≡ w.uploads)
                ⊎ (((Chunks.upload_chunk i k body u v w).1.uploads
                      ≡ update (is_upload i) (put_chunk k (leading y.session.chunk_size body) w.now)
                          w.uploads)
                    ⊎ ((Chunks.upload_chunk i k body u v w).1.uploads
                        ≡ update (is_upload i) (drop_chunk k w.now) w.uploads)) =
              ground arith in
            elim q [
              | inl e ↦ (x, rw e at m, refl)
              | inr (inl e) ↦
                  changed-from i (put_chunk k (leading y.session.chunk_size body) w.now) (λ z. refl)
                    x (rw e at m)
              | inr (inr e) ↦ changed-from i (drop_chunk k w.now) (λ z. refl) x (rw e at m)
            ]
      ]

  call-from :
      (c : Call) (x : UploadDir)
      → In x (handle u c v w).uploads
      → ((y : UploadDir) × In y w.uploads × (y.session ≡ x.session))
        ⊎ GoodSession (handle u c v w).db x.session
  unfolding handle Chunks.clean_stale_chunks
  call-from (upload_file body n parent) x m =
      inl (x, rw (upload_file-uploads body n u v w parent) at m, refl)
  call-from (init_upload parent n total) x m = inr (init-sessions parent n total x m)
  call-from (upload_chunk i k body) x m = inl (chunk-from i k body x m)
  call-from (complete_upload i) x m = inl (x, complete-Within i u v w x m, refl)
  call-from (cancel_upload i) x m = inl (x, cancel-Within i u v w x m, refl)
  call-from clean_stale_chunks x m =
      inl (x, (In-select (λ y. not (is_stale v w.now y)) w.uploads x m).0, refl)

  -- A call that uploads keeps the state ready for uploads, whether it succeeds or fails.
  handle-IsReady : (c : Call) → IsReady (handle u c v w)
  handle-IsReady c =
      let r = handle-Reach u v w ready c in
      record {
        sound = Reach-IsSound r ready.sound;
        sessions = λ x m. elim (call-from c x m) [
          | inr g ↦ g
          | inl (y, n, e) ↦
              GoodSession-KeepsOwners w.db (handle u c v w).db x.session
                (Reach-KeepsOwners w.db _ r)
                (subst (λ s. GoodSession w.db s) e (ready.sessions y n))
        ];
      }

-- What happens between two states: calls that upload, and other requests, which are steps of the
-- specification and leave the directories of sessions.
pub data Trace (v : Env) : World → World → Type 0 where
  start : {w : World} → Trace v w w
  call : {w w' : World} (u : ℕ) (c : Call) → Trace v w w' → Trace v w (handle u c v w')
  other :
      {w w' w'' : World} (u : ℕ)
      → Trace v w w'
      → Reach v u false w'.db w''.db
      → w''.uploads ≡ w'.uploads
      → Trace v w w''

-- Whatever calls of any users come, in any order and whichever of their actions fail, numbers of
-- rows stay unique, a row belongs to the owner of its directory, and the directory that the session
-- of an upload names, as long as it is there, belongs to the user of the session.
pub Trace-IsReady : {v : Env} {w w' : World} → Trace v w w' → IsReady w → IsReady w'
Trace-IsReady start r = r
Trace-IsReady {v} (call {w' = m} u c t) r = handle-IsReady u v m (Trace-IsReady t r) c
Trace-IsReady {v} (other {w' = m} {w'' = n} u t s e) r =
    let k = Trace-IsReady t r in
    record {
      sound = Reach-IsSound s k.sound;
      sessions = λ x q.
          GoodSession-KeepsOwners m.db n.db x.session (Reach-KeepsOwners m.db n.db s)
            (k.sessions x (rw e at q));
    }
