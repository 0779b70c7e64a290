-- ===== src/Tests/Config.antt =====
-- The settings at concrete inputs.
use mathlib.Core.Path.{subst}
use networkdisk.Prelude.{
  ◌≡◌, refl, ap, ◌∙◌, Bool-cases, Bool, true, false, Option, none, some, List, [], ◌∷◌,
  if◌then◌else◌, ◌⊎◌, inl, inr,
}
use networkdisk.Prelude.Int.{ℤ, pos, negsuc}
use networkdisk.Text.{Text, bytes, text_eq}
use networkdisk.Config.{
  is_at, place_of, Settings, Outside, Orders, LoadError, zero_settings, get_nested, set_nested,
  load, reload, field_name, enough_cost, low_cost, decode_failed,
}
use networkdisk.Config.Tables.{
  Key, Value, str, int, boolean, strs, defaults, env_mapping, reload_whitelist,
}
use networkdisk.Config.Sweep.{are_apart, are_apart-Apart}
use networkdisk.Config.Effective.{key_place, AreOrders, effective}
use networkdisk.Config.Settings.{IsShaped, kind, IsLoaded, IsReloaded}
use networkdisk.Config.Loaded.{load-IsLoaded, reload-IsReloaded}

-- A file that sets a port and a host of the database; no other file is there.
abbrev put_int : ℤ → Value → Value
put_int n (int m) = int n
put_int n x = x

abbrev put_str : Text → Value → Value
put_str t (str s) = str t
put_str t x = x

abbrev file : Settings
file =
    set_nested (bytes "server", bytes "port") (put_int (pos 80))
      (set_nested (bytes "database", bytes "host") (put_str (bytes "db1")) zero_settings)

zero-IsShaped : IsShaped zero_settings
zero-IsShaped s f z h = (z, h, refl)

set_nested-IsShaped :
    (k : Key) (g : Value → Value) (c : Settings)
    → ((x : Value) → kind (g x) ≡ kind x)
    → IsShaped c
    → IsShaped (set_nested k g c)
unfolding set_nested
set_nested-IsShaped k g c same shaped s f z h =
    let x = shaped s f z h in
    elim (Bool-cases (is_at (place_of k) s f)) [
      | inl e ↦ (g x.0, rw (set_nested, e, x.1) refl, same x.0 ∙ x.2)
      | inr e ↦ (x.0, rw (set_nested, e) x.1, x.2)
    ]

put_int-kind : (n : ℤ) (x : Value) → kind (put_int n x) ≡ kind x
put_int-kind n (str s) = refl
put_int-kind n (int m) = refl
put_int-kind n (boolean b) = refl
put_int-kind n (strs ws) = refl

put_str-kind : (t : Text) (x : Value) → kind (put_str t x) ≡ kind x
put_str-kind t (str s) = refl
put_str-kind t (int m) = refl
put_str-kind t (boolean b) = refl
put_str-kind t (strs ws) = refl

file-IsShaped : IsShaped file
file-IsShaped =
    set_nested-IsShaped (bytes "server", bytes "port") (put_int (pos 80))
      (set_nested (bytes "database", bytes "host") (put_str (bytes "db1")) zero_settings)
      (put_int-kind (pos 80))
      (set_nested-IsShaped (bytes "database", bytes "host") (put_str (bytes "db1")) zero_settings
        (put_str-kind (bytes "db1")) zero-IsShaped)

abbrev variables : Text → Option Text
variables n =
    if text_eq n (bytes "NETWORKDISK_LOG_AUDIT_RETENTION_DAYS")
    then some (bytes "-7")
    else if text_eq n (bytes "NETWORKDISK_UPLOAD_BLOCKED_EXTENSIONS")
    then some (bytes ".exe, .bat")
    else none

abbrev outside : Outside
outside = record {
  decode_file = λ p. if text_eq p (bytes "c.toml") then some file else none;
  lookup_env = variables;
  lower = λ t. t;
}

abbrev orders : Orders
orders = record {
  default_order = defaults;
  env_order = env_mapping;
  fixed_order = reload_whitelist;
}

defaults_apart : are_apart key_place defaults ≡ true
unfolding are_apart text_eq field_name
defaults_apart = refl

env_apart : are_apart key_place env_mapping ≡ true
unfolding are_apart text_eq field_name
env_apart = refl

fixed_apart : are_apart key_place reload_whitelist ≡ true
unfolding are_apart text_eq field_name
fixed_apart = refl

orders-AreOrders : AreOrders orders
orders-AreOrders = record {
  default_order = record {
    from = λ e m. m;
    to = λ e m. m;
    apart = are_apart-Apart key_place defaults defaults_apart;
  };
  env_order = record {
    from = λ e m. m;
    to = λ e m. m;
    apart = are_apart-Apart key_place env_mapping env_apart;
  };
  fixed_order = record {
    from = λ e m. m;
    to = λ e m. m;
    apart = are_apart-Apart key_place reload_whitelist fixed_apart;
  };
}

abbrev value_at : Text → Text → Option Value
value_at s f = get_nested (effective outside file) (s, f)

port_test : value_at (bytes "server") (bytes "port") ≡ some (int (pos 80))
unfolding networkdisk.Prelude.first text_eq field_name set_nested
port_test = refl

-- A default fills a zero, also a detection that the file has turned off.
detect_test : value_at (bytes "upload") (bytes "detect_mime") ≡ some (boolean true)
unfolding networkdisk.Prelude.first text_eq field_name set_nested
detect_test = refl

days_test : value_at (bytes "log") (bytes "audit_retention_days") ≡ some (int (negsuc 6))
unfolding networkdisk.Prelude.first text_eq field_name set_nested networkdisk.Config.set_field_value
    networkdisk.Numbers.parse_int networkdisk.Numbers.digits
days_test = refl

blocked_test :
    value_at (bytes "upload") (bytes "blocked_extensions")
    ≡ some (strs (bytes ".exe" ∷ bytes ".bat" ∷ []))
unfolding networkdisk.Prelude.first text_eq field_name set_nested networkdisk.Config.set_field_value
    networkdisk.Text.trim_space
blocked_test = refl

absent_test : load outside orders (bytes "d.toml") ≡ inr decode_failed
unfolding load text_eq
absent_test = refl

some-inj : (a b : Settings) → some a ≡ some b → a ≡ b
some-inj a b h = ap (λ (o : Option Settings). elim o [ none ↦ a | some c ↦ c ]) h

-- The file that is there is shaped.
given_shape : (c : Settings) → outside.decode_file (bytes "c.toml") ≡ some c → IsShaped c
unfolding text_eq
given_shape c h = subst IsShaped (some-inj file c h) file-IsShaped

load-IsLoaded_example : IsLoaded outside (bytes "c.toml") (load outside orders (bytes "c.toml"))
load-IsLoaded_example = load-IsLoaded outside orders (bytes "c.toml") orders-AreOrders given_shape

reload-IsReloaded_example :
    IsReloaded outside
      (bytes "c.toml")
      zero_settings
      (reload outside orders (bytes "c.toml") zero_settings)
reload-IsReloaded_example =
    reload-IsReloaded outside orders (bytes "c.toml") zero_settings orders-AreOrders zero-IsShaped
      given_shape
