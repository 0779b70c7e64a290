-- ===== src/Config/Agreement.antt =====
-- The tables of config.go say of each setting what README.md says.
use mathlib.Core.List.{head-eq_of_cons-eq, tail-eq_of_cons-eq}
use networkdisk.Prelude.{
  ◌≡◌, refl, Bool, false, not, Option, none, some, List, [], ◌∷◌, In, In-cons, map, first, inl, inr,
}
use networkdisk.Text.{Text, text_eq}
use networkdisk.Config.{zero_settings, place_of, field_name, is_at}
use networkdisk.Config.Tables.{Value, Key, defaults, env_mapping, reload_whitelist}
use networkdisk.Config.Effective.{key_place}
use networkdisk.Config.Settings.{Setting, settings, row_variable, is_fixed, tagged, kind, zero_of}

map-In :
    {A B : Type 0} (f g : A → B) (xs : List A) (x : A) → map f xs ≡ map g xs → In x xs → f x ≡ g x
map-In f g [] x h m = absurd (elim m [ ])
map-In f g (y ∷ ys) x h m = elim (In-cons m) [
  | inl e ↦ rw e (head-eq_of_cons-eq h)
  | inr n ↦ map-In f g ys x (tail-eq_of_cons-eq h) n
]

abbrev pub in_table : {A : Type 0} → List (Key × A) → Setting → Option (Key × A)
in_table xs r = first (λ e. is_at (key_place e) (place_of r.key).0 (place_of r.key).1) xs

abbrev pub variable_in : Option (Key × Text) → Option Text
variable_in none = none
variable_in (some (k, n)) = some n

abbrev pub default_in : Value → Option (Key × Value) → Value
default_in d none = zero_of (kind d)
default_in d (some (k, v)) = v

abbrev pub fixed_in : Option (Key × Bool) → Bool
fixed_in none = false
fixed_in (some (k, allowed)) = not allowed

tagged_all : map (λ r. tagged r.key) settings ≡ map (λ r. some (place_of r.key)) settings
unfolding text_eq field_name
tagged_all = refl

zero_all :
    map (λ r. zero_settings (place_of r.key).0 (place_of r.key).1) settings
    ≡ map (λ r. some (zero_of (kind r.default))) settings
unfolding text_eq field_name
zero_all = refl

variable_all : map (λ r. variable_in (in_table env_mapping r)) settings ≡ map row_variable settings
unfolding first text_eq field_name
variable_all = refl

default_all :
    map (λ r. default_in r.default (in_table defaults r)) settings ≡ map (λ r. r.default) settings
unfolding first text_eq field_name
default_all = refl

fixed_all :
    map (λ r. fixed_in (in_table reload_whitelist r)) settings ≡ map (λ r. is_fixed r.key) settings
unfolding text_eq first field_name
fixed_all = refl

-- Go finds the field of each setting by the name that it makes of the key, the struct has a field of the
-- type there, and the tables give it its variable, its default and whether it is fixed.
pub record IsTabled (r : Setting) : Type 0 where
  pub place : tagged r.key ≡ some (place_of r.key)
  pub zero : zero_settings (place_of r.key).0 (place_of r.key).1 ≡ some (zero_of (kind r.default))
  pub variable : variable_in (in_table env_mapping r) ≡ row_variable r
  pub default : default_in r.default (in_table defaults r) ≡ r.default
  pub fixed : fixed_in (in_table reload_whitelist r) ≡ is_fixed r.key

pub settings-IsTabled : (r : Setting) → In r settings → IsTabled r
settings-IsTabled r m = record {
  place = map-In (λ r. tagged r.key) (λ r. some (place_of r.key)) settings r tagged_all m;
  zero =
      map-In (λ r. zero_settings (place_of r.key).0 (place_of r.key).1)
        (λ r. some (zero_of (kind r.default))) settings r zero_all m;
  variable =
      map-In (λ r. variable_in (in_table env_mapping r)) row_variable settings r variable_all m;
  default =
      map-In (λ r. default_in r.default (in_table defaults r)) (λ r. r.default) settings r
        default_all m;
  fixed =
      map-In (λ r. fixed_in (in_table reload_whitelist r)) (λ r. is_fixed r.key) settings r
        fixed_all m;
}
