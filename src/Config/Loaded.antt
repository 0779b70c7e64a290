-- ===== src/Config/Loaded.antt =====
-- `Load` and `Reload` give the settings that are meant.
use networkdisk.Prelude.{
  ◌≡◌, refl, sym, ◌∙◌, true, false, Option, none, some, arith, Bool-cases, Option-cases, inl, inr,
}
use networkdisk.Prelude.Int.{ℤ, pos, ◌≤ℤ◌}
use networkdisk.Text.{Text, text_eq}
use networkdisk.Config.{
  Settings, get_nested, field_name, Outside, Orders, place_of, enough_cost, bcrypt_key, load,
  reload,
}
use networkdisk.Config.Tables.{Value, str, int, boolean, strs, reload_whitelist}
use networkdisk.Config.Sweep.{by_table}
use networkdisk.Config.Effective.{
  key_place, AreOrders, effective, checked, old_of, load-effective, reload-effective,
}
use networkdisk.Config.Settings.{
  tagged, IsShaped, AreDecided, IsLoaded, too_cheap, loaded, IsReloaded, reloaded, at_key,
}
use networkdisk.Config.Agreement.{settings-IsTabled}
use networkdisk.Config.Decided.{effective-IsDecided, merged-IsRenewed}

bcrypt_place : tagged bcrypt_key ≡ some (place_of bcrypt_key)
unfolding text_eq field_name
bcrypt_place = refl

at_bcrypt : (c : Settings) → at_key c bcrypt_key ≡ get_nested c bcrypt_key
at_bcrypt c = rw (at_key, bcrypt_place) refl

cost-true : (v : Option Value) → enough_cost v ≡ true → (n : ℤ) × (v ≡ some (int n)) × (pos 4 ≤ℤ n)
cost-true none h = cc
cost-true (some (str s)) h = cc
cost-true (some (int n)) h = (n, refl, ground arith)
cost-true (some (boolean b)) h = cc
cost-true (some (strs ws)) h = cc

cost-false : (v : Option Value) (n : ℤ) → enough_cost v ≡ false → v ≡ some (int n) → ¬ (pos 4 ≤ℤ n)
cost-false v n h e k = let z = rw e at h in ground arith

checked-IsLoaded :
    (o : Outside) (path : Text) (file c : Settings)
    → o.decode_file path ≡ some file
    → AreDecided o file c
    → IsLoaded o path (checked c)
checked-IsLoaded o path file c d a = elim (Bool-cases (enough_cost (get_nested c bcrypt_key))) [
  | inl e ↦
      let k = cost-true (get_nested c bcrypt_key) e in
      rw (checked, e) (loaded file c d a (k.0, at_bcrypt c ∙ k.1, k.2) refl)
  | inr e ↦
      rw (checked, e)
        (too_cheap file c d a
          (λ h. cost-false (get_nested c bcrypt_key) h.0 e (sym (at_bcrypt c) ∙ h.1) h.2) refl)
]

-- In whatever order the maps of the program are visited, `Load` fails as unreadable exactly where
-- the file cannot be decoded, and else decides each of the settings: the variable that is named
-- after the setting, which only `server.allowed_origins` and `server.trusted_proxy` lack, has its
-- way if it is set and its text gives a value of the setting's type, else the file if it sets the
-- value to other than zero, else the default; it then fails where the cost of bcrypt is below 4.
-- The decoder is assumed to give each field a value of its type.
pub load-IsLoaded :
    (o : Outside) (q : Orders) (path : Text)
    → AreOrders q
    → ((file : Settings) → o.decode_file path ≡ some file → IsShaped file)
    → IsLoaded o path (load o q path)
load-IsLoaded o q path a shaped =
    rw (load-effective o q path a) (elim (Option-cases (o.decode_file path)) [
      | inl e ↦ rw e (IsLoaded.unreadable e refl)
      | inr (c, e) ↦ rw e (
          checked-IsLoaded o path c (effective o c) e
            (λ r m. effective-IsDecided o r (settings-IsTabled r m) c (shaped c e)))
    ])

-- In whatever order the maps of the program are visited, `Reload` fails exactly where the file cannot be
-- decoded, and else leaves the settings of the database and the key of the tokens as they were, and
-- decides each of the others as `Load` does. The decoder is assumed to give each field a value of its
-- type, and the settings before to have one.
pub reload-IsReloaded :
    (o : Outside) (q : Orders) (path : Text) (old : Settings)
    → AreOrders q
    → IsShaped old
    → ((file : Settings) → o.decode_file path ≡ some file → IsShaped file)
    → IsReloaded o path old (reload o q path old)
reload-IsReloaded o q path old a before shaped =
    rw (reload-effective o q path old a) (elim (Option-cases (o.decode_file path)) [
      | inl e ↦ rw e (IsReloaded.unreadable e refl)
      | inr (c, e) ↦ rw e (
          reloaded c (by_table key_place (old_of old) reload_whitelist (effective o c)) e
            (λ r m. merged-IsRenewed o r (settings-IsTabled r m) old c before (shaped c e)) refl)
    ])
