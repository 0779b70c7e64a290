-- ===== src/RateLimit/Window.antt =====
-- How many requests of a client pass in a window, whatever else happens.
use networkdisk.Prelude.{
  ℕ, ◌+◌, ◌≤◌, ◌≡◌, refl, sym, ◌∙◌, ap, ◌⊎◌, inl, inr, Bool, true, false, none, some, List, [], ◌∷◌,
  All, arith, leb, Bool-cases, Option-cases, if◌then◌else◌,
}
use networkdisk.Text.{Text, text_eq, text_eq→eq, text_eq_refl}
use networkdisk.RateLimit.{Visitor, RateLimiter, allow, cleanup}

-- What happens to a limiter: a request of a client at a time, or a round of `cleanup`.
pub data Event : Type 0 where
  request : Text → ℕ → Event
  sweep : ℕ → Event

abbrev pub time : Event → ℕ
time (request host now) = now
time (sweep now) = now

abbrev one_if : Bool → ℕ
one_if true = 1
one_if false = 0

-- The number of requests of a client that pass.
unfoldable pub passed : Text → List Event → RateLimiter → ℕ
passed host [] rl = 0
passed host (sweep now ∷ es) rl = passed host es (cleanup now rl)
passed host (request h now ∷ es) rl =
    let (ok, rl') = allow h now rl in
    let rest = passed host es rl' in if text_eq host h then one_if ok + rest else rest

-- The client has an entry for a window that lasts until `t`.
pub record Counted (host : Text) (t : ℕ) (rl : RateLimiter) (n : ℕ) : Type 0 where
  pub entry : Visitor
  pub found : rl.visitors host ≡ some entry
  pub until : entry.reset_at ≡ t
  pub count : entry.count ≡ n

sweep-Counted :
    (host : Text) (t now n : ℕ) (rl : RateLimiter)
    → now ≤ t
    → Counted host t rl n
    → Counted host t (cleanup now rl) n
unfolding cleanup
sweep-Counted host t now n rl h c = record {
  entry = c.entry;
  found = let f = c.found in let u = c.until in ground arith;
  until = c.until;
  count = c.count;
}

other_visitor :
    (host h : Text) (now : ℕ) (rl : RateLimiter)
    → text_eq host h ≡ false
    → (allow h now rl).1.visitors host ≡ rl.visitors host
unfolding allow
other_visitor host h now rl e = elim (Option-cases (rl.visitors h)) [
  | inl q ↦ ground arith
  | inr (x, q) ↦ ground arith
]

allow-limit : (h : Text) (now : ℕ) (rl : RateLimiter) → (allow h now rl).1.limit ≡ rl.limit
unfolding allow
allow-limit h now rl = elim (Option-cases (rl.visitors h)) [
  | inl q ↦ ground arith
  | inr (x, q) ↦ ground arith
]

-- Inside the window a request of the client passes below the limit, and is counted.
own-Counted :
    (host : Text) (t now n : ℕ) (rl : RateLimiter)
    → now ≤ t
    → Counted host t rl n
    → ((rl.limit ≤ n) × ((allow host now rl).0 ≡ false) × Counted host t (allow host now rl).1 n)
      ⊎ ((n + 1 ≤ rl.limit)
          × ((allow host now rl).0 ≡ true)
          × Counted host t (allow host now rl).1 (n + 1))
unfolding allow
own-Counted host t now n rl h c =
    let f = c.found in
    let u = c.until in
    let k = c.count in
    let s = text_eq_refl host in
    elim (Bool-cases (leb rl.limit n)) [
      | inl full ↦ inl (
        ground arith,
        ground arith,
        record { entry = c.entry; found = ground arith; until = u; count = k },
      )
      | inr room ↦ inr (
        ground arith,
        ground arith,
        record {
          entry = record (c.entry) { count = c.entry.count + 1 };
          found = ground arith;
          until = u;
          count = ap (λ i. i + 1) k;
        },
      )
    ]

-- If a client has an entry with a count of at most the limit, the requests of the client that pass
-- until the entry's window ends and that count together are at most the limit, whatever requests of
-- other clients and clean-ups come in between.
pub passed_lem :
    (host : Text) (t : ℕ) (es : List Event) (rl : RateLimiter) (n : ℕ)
    → n ≤ rl.limit
    → Counted host t rl n
    → All (λ e. time e ≤ t) es
    → passed host es rl + n ≤ rl.limit
unfolding passed cleanup
passed_lem host t [] rl n b c h = omega (arith, b)
passed_lem host t (sweep now ∷ es) rl n b c h =
    passed_lem host t es (cleanup now rl) n b (sweep-Counted host t now n rl h.0 c) h.1
passed_lem host t (request k now ∷ es) rl n b c h = elim (Bool-cases (text_eq host k)) [
  | inl e ↦
      let q : k ≡ host = sym (text_eq→eq host k e) in
      let here = text_eq_refl host in
      let l = allow-limit host now rl in
      rw q (elim (own-Counted host t now n rl h.0 c) [
        | inl (full, refused, c') ↦
            let r = passed_lem host t es (allow host now rl).1 n (rw l b) c' h.1 in ground arith
        | inr (room, passes, c') ↦
            let r = passed_lem host t es (allow host now rl).1 (n + 1) (rw l room) c' h.1 in
            ground arith
      ])
  | inr e ↦
      let o = c.found in
      let same = other_visitor host k now rl e in
      let c' : Counted host t (allow k now rl).1 n = record {
        entry = c.entry;
        found = same ∙ c.found;
        until = c.until;
        count = c.count;
      } in
      let l = allow-limit k now rl in
      let r = passed_lem host t es (allow k now rl).1 n (rw l b) c' h.1 in ground arith
]

opened :
    (host : Text) (now : ℕ) (rl : RateLimiter)
    → rl.visitors host ≡ none
    → ((allow host now rl).0 ≡ true) × Counted host (now + rl.window) (allow host now rl).1 1
unfolding allow
opened host now rl f =
    let s = text_eq_refl host in
    (
      ground arith,
      record {
        entry = record { count = 1; reset_at = now + rl.window };
        found = ground arith;
        until = refl;
        count = refl;
      },
    )

-- Of a client that the limiter does not know, at most `limit` requests pass in the window that the
-- first of them opens, if the limit is not 0, whatever requests of other clients and clean-ups come
-- in between.
pub passed_window :
    (host : Text) (now : ℕ) (es : List Event) (rl : RateLimiter)
    → rl.visitors host ≡ none
    → 1 ≤ rl.limit
    → All (λ e. time e ≤ now + rl.window) es
    → passed host (request host now ∷ es) rl ≤ rl.limit
unfolding passed
passed_window host now es rl f pos h =
    let o = opened host now rl f in
    let l = allow-limit host now rl in
    let r = passed_lem host (now + rl.window) es (allow host now rl).1 1 (rw l pos) o.1 h in
    let p = o.0 in let s = text_eq_refl host in ground arith
