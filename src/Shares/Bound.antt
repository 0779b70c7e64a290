-- ===== src/Shares/Bound.antt =====
-- No share is downloaded more often than its owner allows.
use networkdisk.Prelude.{
  ℕ, ◌+◌, ◌≤◌, ◌<◌, ◌≡◌, sym, ap, ◌∙◌, ◌⊎◌, inl, inr, Bool, true, not, Option, In, In-cons,
  In-update, In-select, arith, ◌==◌, Bool-cases, if◌then◌else◌,
}
use networkdisk.Text.{Text}
use networkdisk.Model.{Share, Db}
use networkdisk.Store.Shares as Table

-- Numbers of shares are given once, and the count of a share with a bound is within it.
pub record IsBounded (d : Db) : Type 0 where
  pub unique : (s t : Share) → In s d.shares → In t d.shares → s.id ≡ t.id → s ≡ t
  pub given : (s : Share) → In s d.shares → s.id ≤ d.last_share
  pub within : (s : Share) → In s d.shares → 1 ≤ s.max_downloads → s.view_count ≤ s.max_downloads

-- What a call may do to the table.
pub data ShareChange (d d' : Db) : Type 0 where
  same : d'.shares ≡ d.shares → d'.last_share ≡ d.last_share → ShareChange d d'
  add :
      (token : Text) (f owner : ℕ) (hash : Text) (expire : Option ℕ) (max : ℕ)
      → d' ≡ Table.add_share token f owner hash expire max d
      → ShareChange d d'
  drop : (i : ℕ) → d' ≡ Table.drop_share i d → ShareChange d d'
  count :
      (p : Share → Bool)
      → ((s : Share)
          → In s d.shares
          → p s ≡ true
          → 1 ≤ s.max_downloads
          → s.view_count < s.max_downloads)
      → d' ≡ Table.count_view p d
      → ShareChange d d'

abbrev viewed_if : (Share → Bool) → Share → Share
viewed_if p s = if p s then Table.viewed s else s

viewed_if-id : (p : Share → Bool) (s : Share) → (viewed_if p s).id ≡ s.id
viewed_if-id p s = elim (Bool-cases (p s)) [ inl e ↦ rw e | inr e ↦ rw e ]

viewed_if-within :
    (p : Share → Bool) (s : Share)
    → (p s ≡ true → 1 ≤ s.max_downloads → s.view_count < s.max_downloads)
    → (1 ≤ s.max_downloads → s.view_count ≤ s.max_downloads)
    → 1 ≤ (viewed_if p s).max_downloads
    → (viewed_if p s).view_count ≤ (viewed_if p s).max_downloads
viewed_if-within p s room old h = elim (Bool-cases (p s)) [
  | inl e ↦ let r = room e in ground arith
  | inr e ↦ ground arith
]

pub ShareChange-IsBounded : (d d' : Db) → ShareChange d d' → IsBounded d → IsBounded d'
ShareChange-IsBounded d d' (same e l) b = record {
  unique = rw e b.unique;
  given = λ s m. rw l (b.given s (rw e at m));
  within = rw e b.within;
}
ShareChange-IsBounded d d' (drop i e) b = rw e (record {
  unique = λ s t m n h. b.unique s t (kept s m) (kept t n) h;
  given = λ s m. b.given s (kept s m);
  within = λ s m. b.within s (kept s m);
})
  where
    kept : (s : Share) → In s (Table.drop_share i d).shares → In s d.shares
    kept s m = (In-select (λ (s : Share). not (s.id == i)) d.shares s m).0
ShareChange-IsBounded d d' (count p room e) b = rw e (record {
  unique = λ s t m n h.
      let x = In-update p Table.viewed d.shares s m in
      let y = In-update p Table.viewed d.shares t n in
      x.2
      ∙ ap (viewed_if p) (
          b.unique x.0 y.0 x.1 y.1 (
            sym (viewed_if-id p x.0)
            ∙ ap (λ (z : Share). z.id) (sym x.2)
            ∙ h
            ∙ ap (λ (z : Share). z.id) y.2
            ∙ viewed_if-id p y.0))
      ∙ sym y.2;
  given = λ s m.
      let x = In-update p Table.viewed d.shares s m in
      rw (x.2, viewed_if-id p x.0) (b.given x.0 x.1);
  within = λ s m h.
      let x = In-update p Table.viewed d.shares s m in
      rw x.2 (viewed_if-within p x.0 (room x.0 x.1) (b.within x.0 x.1) (rw x.2 at h));
})
ShareChange-IsBounded d d' (add token f owner hash expire max e) b = rw e (record {
  unique = λ s t m n h. unique_one s t (In-cons m) (In-cons n) h;
  given =
      λ s m. elim (In-cons m) [ inl q ↦ rw q (omega arith) | inr n ↦ omega (arith, b.given s n) ];
  within = λ s m h. elim (In-cons m) [ inl q ↦ rw q (omega arith) | inr n ↦ b.within s n h ];
})
  where
    fresh : (s : Share) → In s d.shares → (d.last_share + 1) ≡ s.id → ⊥
    fresh s m e = omega (arith, b.given s m)

    unique_one :
        (s t : Share)
        → (s ≡ Table.new_share token f owner hash expire max d) ⊎ In s d.shares
        → (t ≡ Table.new_share token f owner hash expire max d) ⊎ In t d.shares
        → s.id ≡ t.id
        → s ≡ t
    unique_one s t (inl p) (inl q) h = p ∙ sym q
    unique_one s t (inl p) (inr n) h = absurd (fresh t n (sym (ap (λ (z : Share). z.id) p) ∙ h))
    unique_one s t (inr m) (inl q) h = absurd (fresh s m (sym (h ∙ ap (λ (z : Share). z.id) q)))
    unique_one s t (inr m) (inr n) h = b.unique s t m n h
