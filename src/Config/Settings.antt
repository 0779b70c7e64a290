-- ===== src/Config/Settings.antt =====
-- What the settings are meant to be: the tables of README.md, and what of the file, the environment and
-- the defaults decides a setting. Of config.go only the fields of the structs and their TOML keys are
-- used, not the tables of names, defaults and variables, nor the loops.
use networkdisk.Prelude.{
  ℕ, ◌-◌, ◌≡◌, ◌≢◌, Bool, true, false, ◌&&◌, ◌||◌, Option, none, some, List, [], ◌∷◌, ◌++◌, map,
  leb, if◌then◌else◌, ◌⊎◌, inl, inr, In,
}
use networkdisk.Prelude.Int.{ℤ, pos, ◌≤ℤ◌}
use networkdisk.Text.{Text, bytes, text_eq, trim_space}
use networkdisk.Numbers.{parse_int}
use networkdisk.Config.{Settings, Outside, LoadError, decode_failed, low_cost, zero_settings}
use networkdisk.Config.Tables.{Value, str, int, boolean, strs, Key, config}

pub record Setting : Type 0 where
  pub key : Key
  pub default : Value
  pub overridable : Bool

abbrev setting : Text → Text → Value → Bool → Setting
setting s f d o = record { key = (s, f); default = d; overridable = o }

-- The tables of README.md, with two corrections: it says that every setting can be overridden, and
-- gives `upload.blocked_extensions` a list by default.
abbrev pub settings : List Setting
settings =
    setting (bytes "server") (bytes "host") (str (bytes "0.0.0.0")) true
    ∷ setting (bytes "server") (bytes "port") (int (pos 24003)) true
    ∷ setting (bytes "server") (bytes "read_timeout") (str (bytes "300s")) true
    ∷ setting (bytes "server") (bytes "write_timeout") (str (bytes "300s")) true
    ∷ setting (bytes "server") (bytes "idle_timeout") (str (bytes "120s")) true
    ∷ setting (bytes "server") (bytes "shutdown_timeout") (str (bytes "10s")) true
    ∷ setting (bytes "server") (bytes "rate_limit") (int (pos 60)) true
    ∷ setting (bytes "server") (bytes "rate_limit_window") (str (bytes "1m")) true
    ∷ setting (bytes "server") (bytes "allowed_origins") (strs []) false
    ∷ setting (bytes "server") (bytes "trusted_proxy") (str []) false
    ∷ setting (bytes "database") (bytes "host") (str (bytes "127.0.0.1")) true
    ∷ setting (bytes "database") (bytes "port") (int (pos 3306)) true
    ∷ setting (bytes "database") (bytes "user") (str []) true
    ∷ setting (bytes "database") (bytes "password") (str []) true
    ∷ setting (bytes "database") (bytes "database") (str []) true
    ∷ setting (bytes "database") (bytes "max_open_conns") (int (pos 25)) true
    ∷ setting (bytes "database") (bytes "max_idle_conns") (int (pos 5)) true
    ∷ setting (bytes "database") (bytes "conn_max_lifetime") (str (bytes "5m")) true
    ∷ setting (bytes "storage") (bytes "root") (str (bytes "./data")) true
    ∷ setting (bytes "storage") (bytes "max_file_size") (int (pos 104857600)) true
    ∷ setting (bytes "storage") (bytes "thumbnail_max_size") (int (pos 52428800)) true
    ∷ setting (bytes "storage") (bytes "thumbnail_quality") (int (pos 80)) true
    ∷ setting (bytes "storage") (bytes "chunk_size") (int (pos 10485760)) true
    ∷ setting (bytes "storage") (bytes "chunk_clean_timeout") (str (bytes "24h")) true
    ∷ setting (bytes "storage") (bytes "auto_clean_recycle_days") (int (pos 30)) true
    ∷ setting (bytes "storage") (bytes "ffmpeg_path") (str []) true
    ∷ setting (bytes "storage") (bytes "temp_link_ttl") (str (bytes "1h")) true
    ∷ setting (bytes "upload") (bytes "allowed_extensions") (strs []) true
    ∷ setting (bytes "upload") (bytes "blocked_extensions") (strs []) true
    ∷ setting (bytes "upload") (bytes "detect_mime") (boolean true) true
    ∷ setting (bytes "upload") (bytes "on_name_conflict") (str (bytes "rename")) true
    ∷ setting (bytes "auth") (bytes "jwt_secret") (str []) true
    ∷ setting (bytes "auth") (bytes "jwt_expire") (str (bytes "15m")) true
    ∷ setting (bytes "auth") (bytes "refresh_expire") (str (bytes "7d")) true
    ∷ setting (bytes "auth") (bytes "bcrypt_cost") (int (pos 12)) true
    ∷ setting (bytes "auth") (bytes "totp_issuer") (str (bytes "NetworkDisk")) true
    ∷ setting (bytes "share") (bytes "default_expire") (str []) true
    ∷ setting (bytes "share") (bytes "max_password_attempts") (int (pos 5)) true
    ∷ setting (bytes "share") (bytes "bcrypt_cost") (int (pos 6)) true
    ∷ setting (bytes "share") (bytes "password_rate_limit_reset") (str (bytes "15m")) true
    ∷ setting (bytes "log") (bytes "level") (str (bytes "info")) true
    ∷ setting (bytes "log") (bytes "format") (str (bytes "text")) true
    ∷ setting (bytes "log") (bytes "file") (str []) true
    ∷ setting (bytes "log") (bytes "audit_retention_days") (int (pos 365)) true
    ∷ []

-- An ASCII letter in upper case.
abbrev capital : ℕ → ℕ
capital b = if leb 97 b && leb b 122 then b - 32 else b

-- `NETWORKDISK_<section>_<key>`.
abbrev pub variable : Key → Text
variable (s, f) = bytes "NETWORKDISK_" ++ (map capital s ++ (bytes "_" ++ map capital f))

abbrev pub row_variable : Setting → Option Text
row_variable r = if r.overridable then some (variable r.key) else none

-- The connection to the database and the key of the tokens are not reloaded.
abbrev pub is_fixed : Key → Bool
is_fixed (s, f) =
    text_eq s (bytes "database") || (text_eq s (bytes "auth") && text_eq f (bytes "jwt_secret"))

-- The Go name that has a TOML key.
abbrev find_key : {A : Type 0} → Text → List (Text × Text × A) → Option (Text × A)
find_key k [] = none
find_key k ((n, t, a) ∷ xs) = let rest = find_key k xs in if text_eq t k then some (n, a) else rest

abbrev in_section : Text → Text → Option (Text × Value) → Option (Text × Text)
in_section n f none = none
in_section n f (some (m, z)) = some (n, m)

abbrev tagged_in : Text → Option (Text × List (Text × Text × Value)) → Option (Text × Text)
tagged_in f none = none
tagged_in f (some (n, fs)) = in_section n f (find_key f fs)

-- The section and the field of a key, by the TOML keys of the structs.
abbrev pub tagged : Key → Option (Text × Text)
tagged (s, f) = tagged_in f (find_key s config)

abbrev at_place : Settings → Option (Text × Text) → Option Value
at_place c none = none
at_place c (some (s, f)) = c s f

abbrev pub at_key : Settings → Key → Option Value
at_key c k = at_place c (tagged k)

abbrev pub at : Settings → Setting → Option Value
at c r = at_key c r.key

-- The Go type of a value, and the type's zero value.
pub data Kind : Type 0 where
  text number flag texts : Kind

abbrev pub kind : Value → Kind
kind (str s) = text
kind (int n) = number
kind (boolean b) = flag
kind (strs ws) = texts

abbrev pub zero_of : Kind → Value
zero_of text = str []
zero_of number = int (pos 0)
zero_of flag = boolean false
zero_of texts = strs []

-- Settings that have a value of the right type in each field, as every Go value of type `Config` has.
abbrev pub IsShaped : Settings → Type 0
IsShaped c =
    (s f : Text) (z : Value)
    → zero_settings s f ≡ some z
    → (x : Value) × (c s f ≡ some x) × (kind x ≡ kind z)

-- Texts with a comma between each two.
abbrev pub with_commas : List Text → Text
with_commas [] = []
with_commas (w ∷ []) = w
with_commas (w ∷ v ∷ vs) = w ++ (44 ∷ with_commas (v ∷ vs))

-- The items of a text, of which there is at least one.
pub record AreItems (t first : Text) (others : List Text) : Type 0 where
  pub joined : t ≡ with_commas (first ∷ others)
  pub apart : (w : Text) → In w (first ∷ others) → (b : ℕ) → In b w → b ≢ 44

-- What a text of the environment makes of a value.
pub data Sets (o : Outside) (t : Text) (x y : Value) : Type 0 where
  a_text : (s : Text) → x ≡ str s → y ≡ str t → Sets o t x y
  a_number : (n m : ℤ) → x ≡ int n → parse_int t ≡ some m → y ≡ int m → Sets o t x y
  no_number : (n : ℤ) → x ≡ int n → parse_int t ≡ none → y ≡ x → Sets o t x y
  turned_on :
      (b : Bool)
      → x ≡ boolean b
      → (o.lower t ≡ bytes "true") ⊎ (o.lower t ≡ bytes "1")
      → y ≡ boolean true
      → Sets o t x y
  turned_off :
      (b : Bool)
      → x ≡ boolean b
      → (o.lower t ≡ bytes "false") ⊎ (o.lower t ≡ bytes "0")
      → y ≡ boolean false
      → Sets o t x y
  no_flag :
      (b : Bool)
      → x ≡ boolean b
      → ((w : Text)
          → In w (bytes "true" ∷ bytes "1" ∷ bytes "false" ∷ bytes "0" ∷ [])
          → o.lower t ≢ w)
      → y ≡ x
      → Sets o t x y
  items :
      (ws : List Text) (w : Text) (vs : List Text)
      → x ≡ strs ws
      → AreItems t w vs
      → w ≢ []
      → y ≡ strs (map trim_space (w ∷ vs))
      → Sets o t x y
  no_items : (ws vs : List Text) → x ≡ strs ws → AreItems t [] vs → y ≡ x → Sets o t x y

-- A default takes the place of a zero value of the file.
pub data Fills (d x y : Value) : Type 0 where
  unset : x ≡ zero_of (kind d) → y ≡ d → Fills d x y
  set : x ≢ zero_of (kind d) → y ≡ x → Fills d x y

-- A variable that is set and not empty has its way.
pub data Overrides (o : Outside) (variable : Option Text) (x y : Value) : Type 0 where
  no_variable : variable ≡ none → y ≡ x → Overrides o variable x y
  absent : (n : Text) → variable ≡ some n → o.lookup_env n ≡ none → y ≡ x → Overrides o variable x y
  empty :
      (n : Text) → variable ≡ some n → o.lookup_env n ≡ some [] → y ≡ x → Overrides o variable x y
  given :
      (n t : Text)
      → variable ≡ some n
      → o.lookup_env n ≡ some t
      → t ≢ []
      → Sets o t x y
      → Overrides o variable x y

-- The value of a setting is the default or the file's, with the environment above it.
pub record IsDecided (o : Outside) (r : Setting) (file result : Settings) : Type 0 where
  pub set_to : Value
  pub filled_to : Value
  pub value : Value
  pub in_file : at file r ≡ some set_to
  pub fills : Fills r.default set_to filled_to
  pub overrides : Overrides o (row_variable r) filled_to value
  pub in_result : at result r ≡ some value

abbrev pub AreDecided : Outside → Settings → Settings → Type 0
AreDecided o file result = (r : Setting) → In r settings → IsDecided o r file result

-- The cost of bcrypt is at least 4.
abbrev pub HasCost : Settings → Type 0
HasCost c = (n : ℤ) × (at_key c (bytes "auth", bytes "bcrypt_cost") ≡ some (int n)) × (pos 4 ≤ℤ n)

-- What `Load` is to return.
pub data IsLoaded (o : Outside) (path : Text) (result : Settings ⊎ LoadError) : Type 0 where
  unreadable : o.decode_file path ≡ none → result ≡ inr decode_failed → IsLoaded o path result
  too_cheap :
      (file c : Settings)
      → o.decode_file path ≡ some file
      → AreDecided o file c
      → ¬ HasCost c
      → result ≡ inr low_cost
      → IsLoaded o path result
  loaded :
      (file c : Settings)
      → o.decode_file path ≡ some file
      → AreDecided o file c
      → HasCost c
      → result ≡ inl c
      → IsLoaded o path result

-- A setting that is not fixed is decided anew, and a fixed one stays.
pub record IsRenewed (o : Outside) (r : Setting) (old file c : Settings) : Type 0 where
  pub fixed : is_fixed r.key ≡ true → at c r ≡ at old r
  pub renewed : is_fixed r.key ≡ false → IsDecided o r file c

-- What `Reload` is to return.
pub data IsReloaded (o : Outside) (path : Text) (old : Settings) (result : Settings ⊎ LoadError)
    : Type 0 where
  unreadable : o.decode_file path ≡ none → result ≡ inr decode_failed → IsReloaded o path old result
  reloaded :
      (file c : Settings)
      → o.decode_file path ≡ some file
      → ((r : Setting) → In r settings → IsRenewed o r old file c)
      → result ≡ inl c
      → IsReloaded o path old result
