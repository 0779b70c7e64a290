-- ===== src/Uploads/Sent.antt =====
-- A client that sends the pieces of a content: whatever their order, and however often each is sent, the
-- content is what the chunks join to.
use networkdisk.Prelude.{
  ℕ, zero, suc, ◌+◌, ◌*◌, ◌≤◌, ◌<◌, ◌≡◌, refl, ap, ◌∙◌, ◌⊎◌, inl, inr, true, false, some, List, [],
  ◌∷◌, In, In-cons, here, there, arith, length, leb, ◌==◌, first, update, Bool-cases,
}
use networkdisk.Text.{Text}
use networkdisk.Model.{Env, World, UploadDir, UploadSession}
use networkdisk.Exec.{ok, tick}
use networkdisk.Uploads.Chunks.{
  is_upload, change_upload, put_chunk, store_chunk, upload_chunk, load_own, load_upload_session,
  check_chunks, merge_chunks, chunks_for,
}
use networkdisk.Uploads.Pieces.{piece, dropped, joined, joined-all, leading_twice}

abbrev pub NoFaults : World → Type 0
NoFaults w = (n : ℕ) → w.faults n ≡ false

-- The state after the pieces of the numbers have been sent, in that order.
unfoldable pub send : Text → Text → ℕ → List ℕ → ℕ → Env → World → World
send i content size [] u v w = w
send i content size (k ∷ ks) u v w =
    send i content size ks u v (upload_chunk i k (piece size content k) u v w).1

-- The session's directory, with the chunks that have come.
pub record Has (i content : Text) (s : UploadSession) (ks : List ℕ) (w : World) : Type 0 where
  pub quiet : NoFaults w
  pub dir : UploadDir
  pub found : first (is_upload i) w.uploads ≡ some dir
  pub session : dir.session ≡ s
  pub pieces :
      (k : ℕ) → In k ks → k < s.chunk_count → dir.chunks k ≡ some (piece s.chunk_size content k)

first-changed :
    (i : Text) (f : UploadDir → UploadDir)
    → ((z : UploadDir) → (f z).session ≡ z.session)
    → (xs : List UploadDir) (x : UploadDir) → first (is_upload i) xs ≡ some x
    → first (is_upload i) (update (is_upload i) f xs) ≡ some (f x)
unfolding first update
first-changed i f same [] x h = absurd (ground arith)
first-changed i f same (y ∷ ys) x h = elim (Bool-cases (is_upload i y)) [
  | inl e ↦
      let q : y ≡ x = ground arith in
      let g : is_upload i (f y) ≡ true = rw (same y) e in rw (e, g) (ap (λ z. some (f z)) q)
  | inr e ↦ rw (e, e) (first-changed i f same ys x (rw e at h))
]

module _ (i content : Text) (s : UploadSession) (ks : List ℕ) (v : Env) (w : World)
    (h : Has i content s ks w) (k : ℕ) where
  abbrev after : World
  after = (upload_chunk i k (piece s.chunk_size content k) s.user_id v w).1

  after_refused : leb s.chunk_count k ≡ true → after ≡ w
  unfolding upload_chunk load_own load_upload_session
  after_refused q =
      let f = h.found in
      let e = h.session in
      let z = ap (λ (a : UploadSession). a.chunk_count) e in ground (arith, h.quiet w.calls)

  after_stored :
      leb s.chunk_count k ≡ false
      → after
        ≡ change_upload i (put_chunk k (piece s.chunk_size content k) w.now) (tick (tick (tick w)))
  unfolding upload_chunk load_own load_upload_session store_chunk
  after_stored q =
      let f = h.found in
      let e = h.session in
      let a = ap (λ (a : UploadSession). a.chunk_count) e in
      let b = ap (λ (a : UploadSession). a.chunk_size) e in
      let c = ap (λ (a : UploadSession). a.user_id) e in
      let d = leading_twice s.chunk_size (dropped (k * s.chunk_size) content) in
      ground (arith, h.quiet w.calls, h.quiet (tick w).calls, h.quiet (tick (tick w)).calls)

  after-Has : Has i content s (k ∷ ks) after
  after-Has = elim (Bool-cases (leb s.chunk_count k)) [
    | inl q ↦ rw (after_refused q) (record {
      quiet = h.quiet;
      dir = h.dir;
      found = h.found;
      session = h.session;
      pieces = λ j m l. elim (In-cons m) [ inl e ↦ absurd (ground arith) | inr n ↦ h.pieces j n l ];
    })
    | inr q ↦ rw (after_stored q) (record {
      quiet = h.quiet;
      dir = put_chunk k (piece s.chunk_size content k) w.now h.dir;
      found =
          first-changed i (put_chunk k (piece s.chunk_size content k) w.now) (λ z. refl) w.uploads
            h.dir h.found;
      session = h.session;
      pieces = λ j m l. elim (Bool-cases (j == k)) [
        | inl e ↦ let z : j ≡ k = ground arith in rw (e, z) refl
        | inr e ↦ rw e (elim (In-cons m) [ inl z ↦ absurd (ground arith) | inr n ↦ h.pieces j n l ])
      ];
    })
  ]

-- The numbers in the order in which they were sent, the last first.
abbrev pub sent : List ℕ → List ℕ → List ℕ
sent [] done = done
sent (k ∷ ks) done = sent ks (k ∷ done)

In-sent : (j : ℕ) (ks done : List ℕ) → In j ks ⊎ In j done → In j (sent ks done)
In-sent j [] done (inl m) = absurd (elim m [ ])
In-sent j [] done (inr m) = m
In-sent j (k ∷ ks) done (inl m) =
    In-sent j ks (k ∷ done) (elim (In-cons m) [ inl e ↦ inr (here e) | inr n ↦ inl n ])
In-sent j (k ∷ ks) done (inr m) = In-sent j ks (k ∷ done) (inr (there m))

send-Has :
    (i content : Text) (s : UploadSession) (v : Env) (ks done : List ℕ) (w : World)
    → Has i content s done w
    → Has i content s (sent ks done) (send i content s.chunk_size ks s.user_id v w)
unfolding send
send-Has i content s v [] done w h = h
send-Has i content s v (k ∷ ks) done w h =
    send-Has i content s v ks (k ∷ done) (after i content s done v w h k)
      (after-Has i content s done v w h k)

-- A run of chunks is there.
abbrev Run : Text → ℕ → UploadDir → ℕ → ℕ → Type 0
Run content size x k rounds =
    (j : ℕ) → k ≤ j → j < k + rounds → x.chunks j ≡ some (piece size content j)

check-Run :
    (content : Text) (size : ℕ) (x : UploadDir) (k rounds : ℕ) (v : Env) (w : World)
    → Run content size x k rounds
    → (check_chunks x k rounds v w).0 ≡ ok tt
unfolding check_chunks
check-Run content size x k zero v w h = refl
check-Run content size x k (suc rounds) v w h =
    rw (check_chunks, h k (omega arith) (omega arith))
      (check-Run content size x (k + 1) rounds v w
        (λ j a b. h j (omega (arith, a)) (omega (arith, b))))

merge-Run :
    (content : Text) (size : ℕ) (x : UploadDir) (k rounds : ℕ) (v : Env) (w : World)
    → NoFaults w
    → Run content size x k rounds
    → (merge_chunks x k rounds v w).0 ≡ ok (joined size content k rounds)
unfolding merge_chunks
merge-Run content size x k zero v w q h = refl
merge-Run content size x k (suc rounds) v w q h =
    let a = h k (omega arith) (omega arith) in
    let r =
      merge-Run content size x (k + 1) rounds v (tick w) q
        (λ j a b. h j (omega (arith, a)) (omega (arith, b))) in
    ground (arith, q w.calls)

-- A fresh session of the content's size, to which the pieces of the content have been sent in some
-- order, each at least once, has all its chunks, and they join to the content, if no action fails.
pub send-joined :
    (i content : Text) (s : UploadSession) (ks : List ℕ) (v : Env) (w : World) (x : UploadDir)
    → NoFaults w
    → first (is_upload i) w.uploads ≡ some x
    → x.session ≡ s
    → zero < s.chunk_size
    → s.chunk_count ≡ chunks_for (length content) s.chunk_size
    → ((k : ℕ) → k < s.chunk_count → In k ks)
    → (y : UploadDir) × ((load_own i s.user_id v (send i content s.chunk_size ks s.user_id v w)).0
        ≡ ok y)
      × (y.session ≡ s)
      × ((check_chunks y 0 s.chunk_count v (send i content s.chunk_size ks s.user_id v w)).0
          ≡ ok tt)
      × ((merge_chunks y 0 s.chunk_count v (tick (send i content s.chunk_size ks s.user_id v w))).0
          ≡ ok content)
unfolding load_own load_upload_session
send-joined i content s ks v w x quiet found mine size count all =
    let end = send i content s.chunk_size ks s.user_id v w in
    let h = send-Has i content s v ks [] w (record {
      quiet = quiet;
      dir = x;
      found = found;
      session = mine;
      pieces = λ k m l. absurd (elim m [ ]);
    }) in
    let run : Run content s.chunk_size h.dir 0 s.chunk_count =
      λ j a b. h.pieces j (In-sent j ks [] (inl (all j (omega (arith, b))))) (omega (arith, b)) in
    (
      h.dir,
      (let f = h.found in let e = ap (λ (a : UploadSession). a.user_id) h.session in ground arith),
      h.session,
      check-Run content s.chunk_size h.dir 0 s.chunk_count v end run,
      merge-Run content s.chunk_size h.dir 0 s.chunk_count v (tick end) h.quiet run
          ∙ ap (λ c. ok c)
              (ap (λ n. joined s.chunk_size content 0 n) count
                ∙ joined-all s.chunk_size content size),
    )
