-- ===== src/Config.antt =====
-- internal/config/config.go: settings from a file, with defaults, variables of the environment, and
-- what a reload keeps. The code finds fields by reflection; here a state of the settings is a function from
-- the Go names of a section and a field. Go visits a map in any order, so the order is an argument.
pub mod Tables
pub mod Sweep
pub mod Effective
pub mod Settings
pub mod Reading
pub mod Agreement
pub mod Decided
pub mod Loaded
use networkdisk.Prelude.{
  ◌⊎◌, inl, inr, ℕ, ◌-◌, ◌≡◌, Bool, true, false, not, ◌&&◌, ◌||◌, Option, none, some, List, [], ◌∷◌,
  ◌++◌, map, ltb, leb, ◌==◌, if◌then◌else◌,
}
use networkdisk.Prelude.Int.{ℤ, pos, negsuc, leb_ℤ}
use networkdisk.Text.{Text, bytes, text_eq, trim_space}
use networkdisk.Numbers.{parse_int}
use networkdisk.Store.Sql.{is_empty}
use networkdisk.Config.Tables.{
  Value, str, int, boolean, strs, Key, config, defaults, env_mapping, reload_whitelist, field_names,
}

-- No value where the type has no such field.
abbrev pub Settings : Type 0
Settings = Text → Text → Option Value

-- The code outside: the decoder of TOML, which puts what the file sets into a struct of zero values,
-- the environment, and lower case.
pub record Outside : Type 0 where
  pub decode_file : Text → Option Settings
  pub lookup_env : Text → Option Text
  pub lower : Text → Text

abbrev find_name : {A : Type 0} → Text → List (Text × A) → Option A
find_name n [] = none
find_name n ((m, a) ∷ xs) = let rest = find_name n xs in if text_eq m n then some a else rest

-- A row of the structs by its Go name.
abbrev find_go : {A : Type 0} → Text → List (Text × Text × A) → Option A
find_go n [] = none
find_go n ((m, t, a) ∷ xs) = let rest = find_go n xs in if text_eq m n then some a else rest

abbrev field_in : Text → Option (List (Text × Text × Value)) → Option Value
field_in f none = none
field_in f (some fs) = find_go f fs

-- `&Config{}`.
abbrev pub zero_settings : Settings
zero_settings s f = field_in f (find_go s config)

-- `strings.Split` at a byte.
abbrev extend : ℕ → List Text → List Text
extend b [] = (b ∷ []) ∷ []
extend b (w ∷ ws) = (b ∷ w) ∷ ws

unfoldable pub split : ℕ → Text → List Text
split c [] = [] ∷ []
split c (b ∷ s) = let rest = split c s in if b == c then [] ∷ rest else extend b rest

-- `strings.ToUpper` of an ASCII letter.
abbrev upper : ℕ → ℕ
upper b = if leb 97 b && leb b 122 then b - 32 else b

abbrev title : Text → Text
title [] = []
title (b ∷ s) = upper b ∷ s

abbrev join : List Text → Text
join [] = []
join (w ∷ ws) = w ++ join ws

abbrev titles : List Text → List Text
titles [] = []
titles (w ∷ ws) = title w ∷ titles ws

unfoldable pub field_name : Text → Text
unfolding split
field_name k = elim (find_name k field_names) [ some m ↦ m | none ↦ join (titles (split 95 k)) ]

-- `getNested` of a key: the field's section and name.
abbrev pub place_of : Key → Text × Text
place_of (s, f) = (field_name s, field_name f)

abbrev pub get_nested : Settings → Key → Option Value
get_nested c k = c (place_of k).0 (place_of k).1

-- The field of a key takes what becomes of its value; a field that is not there is left.
abbrev pub is_at : Text × Text → Text → Text → Bool
is_at p s f = text_eq p.0 s && text_eq p.1 f

abbrev pub changed : (Value → Value) → Option Value → Option Value
changed g none = none
changed g (some x) = some (g x)

unfoldable pub set_nested : Key → (Value → Value) → Settings → Settings
set_nested k g c = λ s f. if is_at (place_of k) s f then changed g (c s f) else c s f

abbrev pub is_zero : Value → Bool
is_zero (str s) = is_empty s
is_zero (int (pos n)) = n == 0
is_zero (int (negsuc n)) = false
is_zero (boolean b) = not b
is_zero (strs []) = true
is_zero (strs (x ∷ xs)) = false

-- `setFieldValueFromAny`, where the default has the field's type.
abbrev pub set_field_value_from_any : Value → Value → Value
set_field_value_from_any val x = val

abbrev pub or_default : Value → Value → Value
or_default val x = if is_zero x then set_field_value_from_any val x else x

unfoldable pub apply_defaults : List (Key × Value) → Settings → Settings
apply_defaults [] c = c
apply_defaults ((k, val) ∷ ds) c = apply_defaults ds (set_nested k (or_default val) c)

abbrev trimmed : List Text → List Text
trimmed [] = []
trimmed (w ∷ ws) = trim_space w ∷ trimmed ws

abbrev starts_empty : List Text → Bool
starts_empty [] = true
starts_empty (w ∷ ws) = is_empty w

-- A value that does not parse leaves the field.
unfoldable pub set_field_value : Outside → Text → Value → Value
set_field_value o t (str s) = str t
set_field_value o t (int n) = elim (parse_int t) [ none ↦ int n | some m ↦ int m ]
set_field_value o t (boolean b) =
    let val = o.lower t in
    if text_eq val (bytes "true") || text_eq val (bytes "1")
    then boolean true
    else if text_eq val (bytes "false") || text_eq val (bytes "0")
    then boolean false
    else boolean b
set_field_value o t (strs ws) =
    if starts_empty (split 44 t) then strs ws else strs (trimmed (split 44 t))

-- A variable that is not set, or is empty, changes nothing.
abbrev pub from_env : Outside → Text → Value → Value
from_env o var x = elim (o.lookup_env var) [
  | none ↦ x
  | some t ↦ if is_empty t then x else set_field_value o t x
]

unfoldable pub apply_env_overrides : Outside → List (Key × Text) → Settings → Settings
apply_env_overrides o [] c = c
apply_env_overrides o ((k, var) ∷ es) c = apply_env_overrides o es (set_nested k (from_env o var) c)

abbrev pub or_old : Option Value → Value → Value
or_old none x = x
or_old (some old) x = old

unfoldable pub merge_reloadable : List (Key × Bool) → Settings → Settings → Settings
merge_reloadable [] old c = c
merge_reloadable ((k, allowed) ∷ ks) old c =
    merge_reloadable ks old (if allowed then c else set_nested k (or_old (get_nested old k)) c)

-- The orders in which the maps are visited.
pub record Orders : Type 0 where
  pub default_order : List (Key × Value)
  pub env_order : List (Key × Text)
  pub fixed_order : List (Key × Bool)

abbrev pub filled : Outside → Orders → Settings → Settings
filled o q c = apply_env_overrides o q.env_order (apply_defaults q.default_order c)

abbrev pub bcrypt_key : Key
bcrypt_key = (bytes "auth", bytes "bcrypt_cost")

-- The test of `Load` on `auth.bcrypt_cost`.
abbrev pub enough_cost : Option Value → Bool
enough_cost (some (int n)) = leb_ℤ (pos 4) n
enough_cost _ = false

pub data LoadError : Type 0 where
  decode_failed : LoadError
  low_cost : LoadError

-- The new settings become the global ones.
unfoldable pub load : Outside → Orders → Text → Settings ⊎ LoadError
load o q path = elim (o.decode_file path) [
  | none ↦ inr decode_failed
  | some c ↦
      if enough_cost (get_nested (filled o q c) bcrypt_key)
      then inl (filled o q c)
      else inr low_cost
]

-- From the global settings.
unfoldable pub reload : Outside → Orders → Text → Settings → Settings ⊎ LoadError
reload o q path global = elim (o.decode_file path) [
  | none ↦ inr decode_failed
  | some c ↦ inl (merge_reloadable q.fixed_order global (filled o q c))
]
