-- ===== src/Tests/Sample.antt =====
-- A small database: user 1 has a directory with a file, user 2 has a file.
use mathlib.Core.Path.{subst}
use networkdisk.Prelude.{
  ℕ, ◌≡◌, Bool, true, false, Option, none, some, List, [], ◌∷◌, In, sym, arith, ◌≤◌, All, here,
  there,
}
use networkdisk.Text.{Text, bytes, text_eq, text_eq→eq, text_eq_refl}
use networkdisk.Model.{File, User, Db, Config, Env, World}
use networkdisk.Steps.Sound.{IsSound}
use networkdisk.Steps.Names.{IsCollation, NamesApart}

abbrev pub sample_config : Config
sample_config = record {
  allowed_extensions = [];
  blocked_extensions = bytes ".exe" ∷ [];
  on_name_conflict = bytes "rename";
  refresh_expire = 1000;
  jwt_expire = 50;
  temp_link_ttl = 60;
  default_share_expire = none;
  password_reset = 900;
  max_file_size = 4;
  chunk_size = 2;
  chunk_clean_timeout = 86400;
  detect_mime = false;
  auto_clean_recycle_days = 30;
}

abbrev pub sample_env : Env
sample_env = record {
  cfg = sample_config;
  same_text = text_eq;
  cte_depth = 10;
  lower = λ t. t;
  sha256_hex = λ t. t;
  bcrypt = λ t. some t;
  bcrypt_matches = text_eq;
  mime_of = λ t. [];
  totp_valid = text_eq;
  sign_access = λ i n now. some (bytes "jwt");
  mac = λ t. t;
  base64_encode = λ t. t;
  base64_decode = λ t. some t;
}

abbrev pub row_of : ℕ → ℕ → Option ℕ → Text → Bool → ℕ → File
row_of i u parent n dir size = record {
  id = i;
  user_id = u;
  parent_id = parent;
  name = n;
  is_dir = dir;
  size = size;
  file_hash = [];
  storage_key = [];
  thumbnail_key = [];
  mime_type = [];
  is_starred = false;
  is_deleted = false;
  deleted_at = none;
}

abbrev pub sample_files : List File
sample_files =
    row_of 1 1 none (bytes "docs") true 0
    ∷ row_of 2 1 (some 1) (bytes "a.txt") false 30
    ∷ row_of 3 2 none (bytes "b.txt") false 5
    ∷ []

abbrev pub user_of : ℕ → Text → ℕ → User
user_of i n used = record {
  id = i;
  username = n;
  password_hash = bytes "secret";
  storage_used = used;
  totp_secret = [];
}

abbrev pub sample_db : Db
sample_db = record {
  files = sample_files;
  last_file = 3;
  users = user_of 1 (bytes "ann") 30 ∷ user_of 2 (bytes "bob") 5 ∷ [];
  last_user = 2;
  tokens = [];
  last_token = 0;
  shares = [];
  last_share = 0;
  temp_downloads = [];
  last_temp_download = 0;
  tags = [];
  last_tag = 0;
  file_tags = [];
}

-- No call fails, and random texts are numbers.
abbrev pub world_of : Db → World
world_of d = record {
  db = d;
  disk = λ k. none;
  uploads = [];
  memory = record {
    totp_attempts = λ u. none;
    pending_totp = λ u. none;
    password_attempts = λ a. none;
  };
  now = 100;
  calls = 0;
  faults = λ n. false;
  draws = 0;
  random = λ n. some (n ∷ []);
}

abbrev pub sample_world : World
sample_world = world_of sample_db

pub In-All {ℓ κ} : {A : Type ℓ} (P : A → Type κ) (xs : List A) → All P xs → (x : A) → In x xs → P x
In-All P [] h x m = elim m [ ]
In-All P (y ∷ ys) h x (here e) = subst P (sym e) h.0
In-All P (y ∷ ys) h x (there m) = In-All P ys h.1 x m

-- What holds of every pair of rows of the sample holds of two of them.
abbrev AllPairs : (File → File → Type 0) → Type 0
AllPairs P = All (λ f. All (P f) sample_files) sample_files

of_pairs :
    (P : File → File → Type 0)
    → AllPairs P
    → (f g : File) → In f sample_files
    → In g sample_files
    → P f g
of_pairs P h f g m n =
    In-All (P f) sample_files (In-All (λ f. All (P f) sample_files) sample_files h f m) g n

pub sample-IsSound : IsSound sample_db
sample-IsSound = record {
  unique = of_pairs (λ f g. f.id ≡ g.id → f ≡ g) (ground arith);
  bounded = In-All (λ f. f.id ≤ 3) sample_files (ground arith);
  owned = of_pairs (λ f g. f.parent_id ≡ some g.id → f.user_id ≡ g.user_id) (ground arith);
  parents = λ f p m h.
      In-All (λ f. (p : ℕ) → f.parent_id ≡ some p → p ≤ 3) sample_files (ground arith) f m p h;
}

sample_names :
    (f g : File)
    → In f sample_files
    → In g sample_files
    → text_eq f.name g.name ≡ true
    → f.id ≡ g.id
unfolding text_eq
sample_names = of_pairs (λ f g. text_eq f.name g.name ≡ true → f.id ≡ g.id) (ground arith)

pub sample-NamesApart : NamesApart sample_env sample_db
sample-NamesApart = record { apart = λ f g m n h. sample_names f g m n h.name }

pub sample-IsCollation : IsCollation sample_env
sample-IsCollation = record {
  same_sym = λ a b h. let e : a ≡ b = text_eq→eq a b h in rw e (text_eq_refl b);
}
