-- ===== src/Config/Decided.antt =====
-- What the loops over the tables make of one setting.
use networkdisk.Prelude.{
  ◌≡◌, refl, sym, ap, ◌∙◌, true, false, Option, some, [], ◌∷◌, arith, Bool-cases, Option-cases, inl,
  inr, first-some,
}
use networkdisk.Prelude.Int.{pos, negsuc}
use networkdisk.Text.{Text}
use networkdisk.Store.Sql.{is_empty}
use networkdisk.Config.{
  Settings, get_nested, Outside, is_at, place_of, or_default, from_env, is_zero, set_field_value,
}
use networkdisk.Config.Tables.{
  Value, str, int, boolean, strs, defaults, env_mapping, reload_whitelist,
}
use networkdisk.Config.Sweep.{by_table, is_at→eq}
use networkdisk.Config.Effective.{key_place, effective, default_of, env_of, old_of}
use networkdisk.Config.Settings.{
  Setting, row_variable, is_fixed, at, Kind, kind, zero_of, IsShaped, Fills, unset, set, Overrides,
  no_variable, absent, empty, given, IsDecided, IsRenewed,
}
use networkdisk.Config.Reading.{set_field_value-Sets, empty→eq, full_not_empty}
use networkdisk.Config.Agreement.{IsTabled, in_table}

zero_is_zero : (k : Kind) → is_zero (zero_of k) ≡ true
zero_is_zero Kind.text = refl
zero_is_zero Kind.number = refl
zero_is_zero Kind.flag = refl
zero_is_zero Kind.texts = refl

is_zero→eq : (x : Value) → is_zero x ≡ true → x ≡ zero_of (kind x)
is_zero→eq (str s) h = ap (λ t. str t) (empty→eq s h)
is_zero→eq (int (pos n)) h = let e : n ≡ 0 = ground (arith, h) in rw e refl
is_zero→eq (int (negsuc n)) h = cc
is_zero→eq (boolean true) h = cc
is_zero→eq (boolean false) h = refl
is_zero→eq (strs []) h = refl
is_zero→eq (strs (w ∷ ws)) h = cc

or_default-Fills : (d x : Value) → kind x ≡ kind d → Fills d x (or_default d x)
or_default-Fills d x k = elim (Bool-cases (is_zero x)) [
  | inl e ↦ unset (is_zero→eq x e ∙ ap zero_of k) (rw e refl)
  | inr e ↦
      set (λ z. let q = zero_is_zero (kind d) in absurd (let y = rw z at e in ground arith))
        (rw e refl)
]

kept-Fills : (d x : Value) → kind x ≡ kind d → zero_of (kind d) ≡ d → Fills d x x
kept-Fills d x k z = elim (Bool-cases (is_zero x)) [
  | inl e ↦ let q = is_zero→eq x e ∙ ap zero_of k in unset q (q ∙ z)
  | inr e ↦
      set (λ z. let q = zero_is_zero (kind d) in absurd (let y = rw z at e in ground arith)) refl
]

from_env-Overrides :
    (o : Outside) (variable : Option Text) (n : Text) (x : Value)
    → variable ≡ some n
    → Overrides o variable x (from_env o n x)
from_env-Overrides o variable n x h = elim (Option-cases (o.lookup_env n)) [
  | inl e ↦ absent n h e (rw (from_env, e) refl)
  | inr (t, e) ↦ elim (Bool-cases (is_empty t)) [
    | inl f ↦ empty n h (e ∙ ap (λ s. some s) (empty→eq t f)) (rw (from_env, e) (rw f refl))
    | inr f ↦
        let q : from_env o n x ≡ set_field_value o t x = rw (from_env, e) (rw f refl) in
        given n t h e (λ z. absurd (full_not_empty t f z)) (rw q (set_field_value-Sets o t x))
  ]
]

kind_of_zero : (k : Kind) → kind (zero_of k) ≡ k
kind_of_zero Kind.text = refl
kind_of_zero Kind.number = refl
kind_of_zero Kind.flag = refl
kind_of_zero Kind.texts = refl

module _ (o : Outside) (r : Setting) (t : IsTabled r) where
  abbrev at_go : Settings → Option Value
  at_go c = c (place_of r.key).0 (place_of r.key).1

  at-at_go : (c : Settings) → at c r ≡ at_go c
  at-at_go c = rw (at, t.place) refl

  defaults-Fills :
      (c : Settings) (x : Value)
      → at_go c ≡ some x
      → kind x ≡ kind r.default
      → (y : Value) × (at_go (by_table key_place default_of defaults c) ≡ some y)
        × Fills r.default x y
  defaults-Fills c x h k = elim (Option-cases (in_table defaults r)) [
    | inl e ↦ (x, rw (by_table, e) h, kept-Fills r.default x k (rw e at t.default))
    | inr ((j, v), e) ↦
        let z : v ≡ r.default = rw e at t.default in
        (or_default v x, rw (by_table, e, h) refl, rw z (or_default-Fills r.default x k))
  ]

  env-Overrides :
      (c : Settings) (x : Value)
      → at_go c ≡ some x
      → (y : Value) × (at_go (by_table key_place (env_of o) env_mapping c) ≡ some y)
        × Overrides o (row_variable r) x y
  env-Overrides c x h = elim (Option-cases (in_table env_mapping r)) [
    | inl e ↦ (x, rw (by_table, e) h, no_variable (sym (rw e at t.variable)) refl)
    | inr ((j, n), e) ↦ (
      from_env o n x,
      rw (by_table, e, h) refl,
      from_env-Overrides o (row_variable r) n x (sym (rw e at t.variable)),
    )
  ]

  shaped_value :
      (c : Settings) → IsShaped c → (x : Value) × (at_go c ≡ some x) × (kind x ≡ kind r.default)
  shaped_value c shaped =
      let x = shaped (place_of r.key).0 (place_of r.key).1 (zero_of (kind r.default)) t.zero in
      (x.0, x.1, x.2 ∙ kind_of_zero (kind r.default))

  pub effective-IsDecided : (c : Settings) → IsShaped c → IsDecided o r c (effective o c)
  effective-IsDecided c shaped =
      let x = shaped_value c shaped in
      let y = defaults-Fills c x.0 x.1 x.2 in
      let z = env-Overrides (by_table key_place default_of defaults c) y.0 y.1 in
      record {
        set_to = x.0;
        filled_to = y.0;
        value = z.0;
        in_file = at-at_go c ∙ x.1;
        fills = y.2;
        overrides = z.2;
        in_result = at-at_go (effective o c) ∙ z.1;
      }

  abbrev merged : Settings → Settings → Settings
  merged old c = by_table key_place (old_of old) reload_whitelist c

  merged_fixed :
      (old c : Settings) (x y : Value)
      → at_go old ≡ some x
      → at_go c ≡ some y
      → is_fixed r.key ≡ true
      → at_go (merged old c) ≡ at_go old
  merged_fixed old c x y h k f = elim (Option-cases (in_table reload_whitelist r)) [
    | inl e ↦ absurd (let a = rw e at t.fixed in ground arith)
    | inr ((j, true), e) ↦ absurd (let a = rw e at t.fixed in ground arith)
    | inr ((j, false), e) ↦
        let m =
          first-some (λ a. is_at (key_place a) (place_of r.key).0 (place_of r.key).1)
            reload_whitelist (j, false) e in
        let p = is_at→eq (place_of j) (place_of r.key).0 (place_of r.key).1 m.1 in
        let q : get_nested old j ≡ some x = rw (p.0, p.1) h in rw (by_table, e, k) (rw q (sym h))
  ]

  merged_free : (old c : Settings) → is_fixed r.key ≡ false → at_go (merged old c) ≡ at_go c
  merged_free old c f = elim (Option-cases (in_table reload_whitelist r)) [
    | inl e ↦ rw (by_table, e) refl
    | inr ((j, false), e) ↦ absurd (let a = rw e at t.fixed in ground arith)
    | inr ((j, true), e) ↦ elim (Option-cases (at_go c)) [
      | inl k ↦ rw (by_table, e, k) refl
      | inr (y, k) ↦ rw (by_table, e, k) refl
    ]
  ]

  pub merged-IsRenewed :
      (old c : Settings)
      → IsShaped old
      → IsShaped c
      → IsRenewed o r old c (merged old (effective o c))
  merged-IsRenewed old c a b =
      let x = shaped_value old a in
      let d = effective-IsDecided c b in
      record {
        fixed = λ f.
            at-at_go (merged old (effective o c))
            ∙ merged_fixed old (effective o c) x.0 d.value x.1
                (sym (at-at_go (effective o c)) ∙ d.in_result) f
            ∙ sym (at-at_go old);
        renewed = λ f. record {
          set_to = d.set_to;
          filled_to = d.filled_to;
          value = d.value;
          in_file = d.in_file;
          fills = d.fills;
          overrides = d.overrides;
          in_result =
              at-at_go (merged old (effective o c))
              ∙ merged_free old (effective o c) f
              ∙ sym (at-at_go (effective o c))
              ∙ d.in_result;
        };
      }
