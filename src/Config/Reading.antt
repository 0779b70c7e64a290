-- ===== src/Config/Reading.antt =====
-- What `setFieldValue` makes of a text is what is meant.
use networkdisk.Prelude.{
  ℕ, ◌≡◌, ◌≢◌, refl, sym, ap, ◌∙◌, Bool, true, false, List, [], ◌∷◌, map, In, In-cons, here, there,
  arith, ◌==◌, Bool-cases, Option-cases, inl, inr,
}
use networkdisk.Text.{Text, bytes, text_eq, text_eq→eq, text_eq_refl, trim_space}
use networkdisk.Numbers.{parse_int}
use networkdisk.Store.Sql.{is_empty}
use networkdisk.Config.{Outside, split, trimmed, set_field_value}
use networkdisk.Config.Tables.{Value, str, int, boolean, strs}
use networkdisk.Config.Settings.{
  Sets, a_text, a_number, no_number, turned_on, turned_off, no_flag, items, no_items, AreItems,
  with_commas,
}

-- The first item and the others.
record IsCut (t : Text) : Type 0 where
  first : Text
  others : List Text
  same : split 44 t ≡ first ∷ others
  items : AreItems t first others

with_commas-cons :
    (b : ℕ) (w : Text) (ws : List Text) → with_commas ((b ∷ w) ∷ ws) ≡ b ∷ with_commas (w ∷ ws)
with_commas-cons b w [] = refl
with_commas-cons b w (v ∷ vs) = refl

only : (w : Text) → In w ([] ∷ []) → w ≡ []
only w m = elim (In-cons m) [ inl e ↦ e | inr n ↦ absurd (elim n [ ]) ]

none-In : (w : Text) (b : ℕ) → w ≡ [] → In b w → ⊥
none-In [] b e m = elim m [ ]
none-In (c ∷ w) b e m = ground (arith, e)

split-IsCut : (t : Text) → IsCut t
unfolding split
split-IsCut [] = record {
  first = [];
  others = [];
  same = refl;
  items = record { joined = refl; apart = λ w m b n. absurd (none-In w b (only w m) n) };
}
split-IsCut (b ∷ t) =
    let r = split-IsCut t in
    let q = r.items in
    elim (Bool-cases (b == 44)) [
      | inl e ↦ record {
        first = [];
        others = r.first ∷ r.others;
        same = rw (split, e, r.same) refl;
        items = record {
          joined = let z : b ≡ 44 = ground arith in rw z (ap (λ s. 44 ∷ s) q.joined);
          apart = λ w m c n. elim (In-cons m) [
            | inl z ↦ absurd (none-In w c z n)
            | inr z ↦ q.apart w z c n
          ];
        };
      }
      | inr e ↦ record {
        first = b ∷ r.first;
        others = r.others;
        same = rw (split, e, r.same) refl;
        items = record {
          joined = ap (λ s. b ∷ s) q.joined ∙ sym (with_commas-cons b r.first r.others);
          apart = λ w m c n. elim (In-cons m) [
            | inl z ↦ elim (In-cons (rw z at n)) [
              | inl y ↦ λ z. absurd (ground (arith, y, z, e))
              | inr y ↦ q.apart r.first (here refl) c y
            ]
            | inr z ↦ q.apart w (there z) c n
          ];
        };
      }
    ]

trimmed-map : (ws : List Text) → trimmed ws ≡ map trim_space ws
trimmed-map [] = refl
trimmed-map (w ∷ ws) = ap (λ vs. trim_space w ∷ vs) (trimmed-map ws)

pub empty→eq : (w : Text) → is_empty w ≡ true → w ≡ []
empty→eq [] h = refl
empty→eq (b ∷ w) h = cc

pub full_not_empty : (w : Text) → is_empty w ≡ false → w ≡ [] → ⊥
full_not_empty [] h e = cc
full_not_empty (b ∷ w) h e = ground (arith, e)

differs : (s w : Text) → text_eq s w ≡ false → s ≢ w
differs s w h e = let k = text_eq_refl w in absurd (let q = rw e at h in ground arith)

set_flag :
    (o : Outside) (t : Text) (b : Bool) → Sets o t (boolean b) (set_field_value o t (boolean b))
unfolding set_field_value
set_flag o t b =
    let s = o.lower t in
    elim (Bool-cases (text_eq s (bytes "true"))) [
      | inl e ↦ turned_on b refl (inl (text_eq→eq s (bytes "true") e)) (ground arith)
      | inr e ↦ elim (Bool-cases (text_eq s (bytes "1"))) [
        | inl f ↦ turned_on b refl (inr (text_eq→eq s (bytes "1") f)) (ground arith)
        | inr f ↦ elim (Bool-cases (text_eq s (bytes "false"))) [
          | inl g ↦ turned_off b refl (inl (text_eq→eq s (bytes "false") g)) (ground arith)
          | inr g ↦ elim (Bool-cases (text_eq s (bytes "0"))) [
            | inl h ↦ turned_off b refl (inr (text_eq→eq s (bytes "0") h)) (ground arith)
            | inr h ↦ no_flag b refl (none_of s e f g h) (ground arith)
          ]
        ]
      ]
    ]
  where
    none_of :
        (s : Text)
        → text_eq s (bytes "true") ≡ false
        → text_eq s (bytes "1") ≡ false
        → text_eq s (bytes "false") ≡ false
        → text_eq s (bytes "0") ≡ false
        → (w : Text) → In w (bytes "true" ∷ bytes "1" ∷ bytes "false" ∷ bytes "0" ∷ [])
        → s ≢ w
    none_of s e f g h w (here z) = rw z (differs s (bytes "true") e)
    none_of s e f g h w (there (here z)) = rw z (differs s (bytes "1") f)
    none_of s e f g h w (there (there (here z))) = rw z (differs s (bytes "false") g)
    none_of s e f g h w (there (there (there (here z)))) = rw z (differs s (bytes "0") h)
    none_of s e f g h w (there (there (there (there m)))) = absurd (elim m [ ])

pub set_field_value-Sets : (o : Outside) (t : Text) (x : Value) → Sets o t x (set_field_value o t x)
unfolding set_field_value
set_field_value-Sets o t (str s) = a_text s refl refl
set_field_value-Sets o t (int n) = elim (Option-cases (parse_int t)) [
  | inl q ↦ no_number n refl q (rw (set_field_value, q) refl)
  | inr (m, q) ↦ a_number n m refl q (rw (set_field_value, q) refl)
]
set_field_value-Sets o t (boolean b) = set_flag o t b
set_field_value-Sets o t (strs ws) =
    let r = split-IsCut t in
    elim (Bool-cases (is_empty r.first)) [
      | inl e ↦
          let z : r.first ≡ [] = empty→eq r.first e in
          no_items ws r.others refl (rw z at r.items) (rw (set_field_value, r.same) (rw e refl))
      | inr e ↦
          items ws r.first r.others refl r.items (λ z. absurd (full_not_empty r.first e z))
            (rw (set_field_value, r.same)
              (rw e (ap (λ vs. strs vs) (trimmed-map (r.first ∷ r.others)))))
    ]
