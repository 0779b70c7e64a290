-- ===== src/Config/Effective.antt =====
-- What the settings are after `Load` and after `Reload`, said of each field by itself.
use mathlib.Core.Path.{fun_ext}
use networkdisk.Prelude.{
  ◌≡◌, refl, ap, ◌∙◌, Bool, true, false, none, some, List, [], ◌∷◌, if◌then◌else◌, Bool-cases,
  Option-cases, ◌⊎◌, inl, inr,
}
use networkdisk.Text.{Text}
use networkdisk.Config.{
  Settings, Outside, Orders, LoadError, decode_failed, low_cost, is_at, place_of, get_nested,
  set_nested, or_default, from_env, or_old, apply_defaults, apply_env_overrides, merge_reloadable,
  filled, enough_cost, bcrypt_key, load, reload,
}
use networkdisk.Config.Tables.{Value, Key, defaults, env_mapping, reload_whitelist}
use networkdisk.Config.Sweep.{change_at, sweep, IsOrder, by_table, sweep-IsOrder}

abbrev pub key_place : {A : Type 0} → Key × A → Text × Text
key_place (k, a) = place_of k

abbrev pub default_of : Key × Value → Value → Value
default_of (k, val) = or_default val

abbrev pub env_of : Outside → Key × Text → Value → Value
env_of o (k, var) = from_env o var

abbrev pub old_of : Settings → Key × Bool → Value → Value
old_of old (k, allowed) x = if allowed then x else or_old (get_nested old k) x

apply_defaults-sweep :
    (ds : List (Key × Value)) (c : Settings) → apply_defaults ds c ≡ sweep key_place default_of ds c
unfolding apply_defaults sweep set_nested
apply_defaults-sweep [] c = refl
apply_defaults-sweep ((k, val) ∷ ds) c = apply_defaults-sweep ds (set_nested k (or_default val) c)

env-sweep :
    (o : Outside) (es : List (Key × Text)) (c : Settings)
    → apply_env_overrides o es c ≡ sweep key_place (env_of o) es c
unfolding apply_env_overrides sweep set_nested
env-sweep o [] c = refl
env-sweep o ((k, var) ∷ es) c = env-sweep o es (set_nested k (from_env o var) c)

unchanged_at : (p : Text × Text) (c : Settings) → c ≡ change_at p (λ x. x) c
unchanged_at p c = fun_ext (λ s. fun_ext (λ f. elim (Bool-cases (is_at p s f)) [
  | inl e ↦ rw e (elim (Option-cases (c s f)) [ inl q ↦ rw q refl | inr (x, q) ↦ rw q refl ])
  | inr e ↦ rw e refl
]))

merge-sweep :
    (ks : List (Key × Bool)) (old c : Settings)
    → merge_reloadable ks old c ≡ sweep key_place (old_of old) ks c
unfolding merge_reloadable sweep set_nested
merge-sweep [] old c = refl
merge-sweep ((k, true) ∷ ks) old c =
    merge-sweep ks old c ∙ ap (sweep key_place (old_of old) ks) (unchanged_at (place_of k) c)
merge-sweep ((k, false) ∷ ks) old c =
    merge-sweep ks old (set_nested k (or_old (get_nested old k)) c)

-- The maps of the program are visited in some order each.
pub record AreOrders (q : Orders) : Type 0 where
  pub default_order : IsOrder key_place q.default_order defaults
  pub env_order : IsOrder key_place q.env_order env_mapping
  pub fixed_order : IsOrder key_place q.fixed_order reload_whitelist

-- A field has the value of its variable of the environment, else that of the file, else its default.
abbrev pub effective : Outside → Settings → Settings
effective o c = by_table key_place (env_of o) env_mapping (by_table key_place default_of defaults c)

filled-effective :
    (o : Outside) (q : Orders) (c : Settings) → AreOrders q → filled o q c ≡ effective o c
filled-effective o q c a =
    env-sweep o q.env_order (apply_defaults q.default_order c)
    ∙ sweep-IsOrder key_place (env_of o) q.env_order env_mapping (apply_defaults q.default_order c)
        a.env_order
    ∙ ap (by_table key_place (env_of o) env_mapping) (
        apply_defaults-sweep q.default_order c
        ∙ sweep-IsOrder key_place default_of q.default_order defaults c a.default_order)

abbrev pub checked : Settings → Settings ⊎ LoadError
checked c = if enough_cost (get_nested c bcrypt_key) then inl c else inr low_cost

-- In whatever order the maps are visited, `Load` gives the effective settings of what the file sets, or
-- fails where the file cannot be decoded or the effective cost of bcrypt is below 4.
pub load-effective :
    (o : Outside) (q : Orders) (path : Text)
    → AreOrders q
    → load o q path
      ≡ (elim (o.decode_file path) [ none ↦ inr decode_failed | some c ↦ checked (effective o c) ])
unfolding load
load-effective o q path a = elim (Option-cases (o.decode_file path)) [
  | inl e ↦ rw (load, e) refl
  | inr (c, e) ↦ rw (load, e) (ap checked (filled-effective o q c a))
]

-- In whatever order the maps are visited, `Reload` gives the effective settings of what the file sets,
-- but the fields of the table of fixed keys as they were, or fails where the file cannot be decoded.
pub reload-effective :
    (o : Outside) (q : Orders) (path : Text) (old : Settings)
    → AreOrders q
    → reload o q path old ≡ (elim (o.decode_file path) [
      | none ↦ inr decode_failed
      | some c ↦ inl (by_table key_place (old_of old) reload_whitelist (effective o c))
    ])
unfolding reload
reload-effective o q path old a = elim (Option-cases (o.decode_file path)) [
  | inl e ↦ rw (reload, e) refl
  | inr (c, e) ↦
      rw (reload, e)
        (ap (λ z. inl z)
          (merge-sweep q.fixed_order old (filled o q c)
            ∙ sweep-IsOrder key_place (old_of old) q.fixed_order reload_whitelist (filled o q c)
                a.fixed_order
            ∙ ap (by_table key_place (old_of old) reload_whitelist) (filled-effective o q c a)))
]
