-- ===== src/Exec.antt =====
-- The program's calls as actions: the state goes through, and an error is a value (Go's `error`
-- results). What was written before an error stays written, unless a transaction rolls it back.
use networkdisk.Prelude.{ℕ, ◌+◌, ◌≡◌, refl, ◌⊎◌, inl, inr, Bool, Option, none, some, if◌then◌else◌}
use networkdisk.Text.{Text, text_eq}
use networkdisk.Model.{Env, World, Db}

-- The errors that callers tell apart, and one constructor for each message else. A wrapped error
-- (`%w`) is the error that it wraps, as `errors.Is` sees it.
pub data Error : Type 0 where
  database disk_failure random_source foreign_key recursion_limit : Error
  file_too_large bad_size no_session not_your_session bad_chunk : Error
  missing_chunk : ℕ → Error
  no_rows bad_id bad_name empty_ids no_key : Error
  file_not_found name_conflict extension_blocked : Error
  missing_name name_too_long : Error
  parent_missing parent_not_dir parent_deleted : Error
  into_self into_subdir nothing_selected : Error
  invalid_credentials token_revoked token_expired weak_password signing : Error
  totp_required invalid_totp too_many_attempts totp_not_pending totp_not_enabled totp_enabled :
      Error
  share_not_found share_expired share_exhausted bad_share folder_not_allowed : Error
  share_has_password share_has_no_password wrong_share_password : Error
  bad_verify_token verify_token_expired link_expired : Error
  bad_color not_your_tag not_your_file duplicate_key : Error
  absent conflict_of : ℕ → Error

pub data Result (A : Type 0) : Type 0 where
  ok : A → Result A
  err : Error → Result A

pub Result-cases :
    {A : Type 0} (r : Result A) → ((a : A) × (r ≡ ok a)) ⊎ ((e : Error) × (r ≡ err e))
Result-cases (ok a) = inl (a, refl)
Result-cases (err e) = inr (e, refl)

abbrev pub Exec : Type 0 → Type 0
Exec A = Env → World → Result A × World

module _ {A : Type 0} where
  abbrev pub pure : A → Exec A
  pure a v w = (ok a, w)

  abbrev pub raise : Error → Exec A
  raise e v w = (err e, w)

  abbrev pub raise_if : Bool → Error → Exec A → Exec A
  raise_if c e m v w = if c then (err e, w) else m v w

abbrev continue : {A B : Type 0} → Result A → (A → Exec B) → Exec B
continue (ok a) f v w = f a v w
continue (err e) f v w = (err e, w)

infixl 10 ◌>>=◌ ◌>>◌
unfoldable pub ◌>>=◌ : {A B : Type 0} → Exec A → (A → Exec B) → Exec B
◌>>=◌ m f v w = let (r, w') = m v w in continue r f v w'

abbrev pub ◌>>◌ : {A B : Type 0} → Exec A → Exec B → Exec B
m >> n = m >>= λ _. n

-- `if cond { return err }`.
unfoldable pub refuse_if : Bool → Error → Exec (Unit {0})
refuse_if c e v w = (if c then err e else ok tt, w)

-- One round trip to the database, which may fail.
abbrev pub tick : World → World
tick w = record w { calls = w.calls + 1 }

unfoldable pub call : {A : Type 0} → Exec A → Exec A
call m v w = if w.faults w.calls then (err database, tick w) else m v (tick w)

abbrev pub get_db : {A : Type 0} → (Db → A) → Exec A
get_db f v w = (ok (f w.db), w)

abbrev pub put_db : Db → World → World
put_db d w = record w { db = d }

-- The end of a transaction: COMMIT, or the deferred `tx.Rollback()`.
unfoldable pub settle : {A : Type 0} → Db → Result A → World → Result A × World
settle before (ok a) w =
    if w.faults w.calls then (err database, put_db before (tick w)) else (ok a, tick w)
settle before (err e) w = (err e, put_db before w)

-- `BeginTx`, the statements of the transaction, and its end. A failed COMMIT has not committed.
unfoldable pub transaction : {A : Type 0} → Exec A → Exec A
unfolding settle
transaction m v w =
    if w.faults w.calls
    then (err database, tick w)
    else let (r, w') = m v (tick w) in settle w.db r w'

-- `rand.Read` and `hex.EncodeToString`.
unfoldable pub draw : Exec Text
draw v w = elim (w.random w.draws) [
  | none ↦ (err random_source, record w { draws = w.draws + 1 })
  | some t ↦ (ok t, record w { draws = w.draws + 1 })
]

-- A call whose error the caller looks at and goes on from.
abbrev to_option : {A : Type 0} → Result A → Option A
to_option (ok a) = some a
to_option (err _) = none

unfoldable pub attempt : {A : Type 0} → Exec A → Exec (Option A)
attempt m v w = let (r, w') = m v w in (ok (to_option r), w')

-- `if errors.Is(err, sql.ErrNoRows) { return e }`.
abbrev replace_no_rows : {A : Type 0} → Error → Result A → Result A
replace_no_rows e (ok a) = ok a
replace_no_rows e (err no_rows) = err e
replace_no_rows e (err other) = err other

unfoldable pub on_no_rows : {A : Type 0} → Error → Exec A → Exec A
on_no_rows e m v w = let (r, w') = m v w in (replace_no_rows e r, w')

-- A call any of whose errors the caller replaces by its own.
abbrev replace : {A : Type 0} → Error → Result A → Result A
replace e (ok a) = ok a
replace e (err _) = err e

unfoldable pub or_raise : {A : Type 0} → Error → Exec A → Exec A
or_raise e m v w = let (r, w') = m v w in (replace e r, w')

-- A pure function whose error is `none`.
abbrev pub lift_option : {A : Type 0} → Error → Option A → Exec A
lift_option e none v w = (err e, w)
lift_option e (some a) v w = (ok a, w)

-- Setting and reading what surrounds a call.
abbrev pub ask : {A : Type 0} → (Env → World → A) → Exec A
ask f v w = (ok (f v w), w)

-- An operation of the operating system, which may fail.
unfoldable pub io : {A : Type 0} → Exec A → Exec A
io m v w = if w.faults w.calls then (err disk_failure, tick w) else m v (tick w)

-- `storage.Local.Delete` and `os.Remove`, whose error the callers drop.
abbrev pub without_key : Text → (Text → Option Text) → Text → Option Text
without_key key disk k = if text_eq k key then none else disk k

unfoldable pub remove_from_disk : Text → Exec (Unit {0})
remove_from_disk key v w = (ok tt, record w { disk = without_key key w.disk })
