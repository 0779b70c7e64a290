-- ===== src/Model.antt =====
-- internal/model/model.go: the rows of the tables; the database; what surrounds a call.
use networkdisk.Prelude.{ℕ, Bool, Option, List}
use networkdisk.Text.{Text}

-- `model.File`, less the two timestamps that MySQL maintains. Times are seconds.
pub record File : Type 0 where
  pub id : ℕ
  pub user_id : ℕ
  pub parent_id : Option ℕ
  pub name : Text
  pub is_dir : Bool
  pub size : ℕ
  pub file_hash : Text
  pub storage_key : Text
  pub thumbnail_key : Text
  pub mime_type : Text
  pub is_starred : Bool
  pub is_deleted : Bool
  pub deleted_at : Option ℕ

pub record User : Type 0 where
  pub id : ℕ
  pub username : Text
  pub password_hash : Text
  pub storage_used : ℕ
  pub totp_secret : Text

pub record RefreshToken : Type 0 where
  pub id : ℕ
  pub user_id : ℕ
  pub token_hash : Text
  pub family_id : Text
  pub revoked : Bool
  pub expires_at : ℕ

pub record Share : Type 0 where
  pub id : ℕ
  pub token : Text
  pub file_id : ℕ
  pub owner_id : ℕ
  pub password_hash : Text
  pub expire_at : Option ℕ
  pub max_downloads : ℕ
  pub view_count : ℕ

pub record TempDownload : Type 0 where
  pub id : ℕ
  pub token : Text
  pub file_id : ℕ
  pub user_id : ℕ
  pub expire_at : ℕ

pub record Tag : Type 0 where
  pub id : ℕ
  pub user_id : ℕ
  pub name : Text
  pub color : Text

-- The tables, each with its AUTO_INCREMENT counter; `file_tags` pairs a file and a tag.
pub record Db : Type 0 where
  pub files : List File
  pub last_file : ℕ
  pub users : List User
  pub last_user : ℕ
  pub tokens : List RefreshToken
  pub last_token : ℕ
  pub shares : List Share
  pub last_share : ℕ
  pub temp_downloads : List TempDownload
  pub last_temp_download : ℕ
  pub tags : List Tag
  pub last_tag : ℕ
  pub file_tags : List (ℕ × ℕ)

-- The settings that the modelled operations read.
pub record Config : Type 0 where
  pub allowed_extensions : List Text
  pub blocked_extensions : List Text
  pub on_name_conflict : Text
  pub refresh_expire : ℕ
  pub jwt_expire : ℕ
  pub temp_link_ttl : ℕ
  pub default_share_expire : Option ℕ
  pub password_reset : ℕ
  pub max_file_size : ℕ
  pub chunk_size : ℕ
  pub chunk_clean_timeout : ℕ
  pub detect_mime : Bool
  pub auto_clean_recycle_days : ℕ

-- What the program relies on and does not implement: the collation by which MySQL compares texts,
-- its limit on recursion in a query, Unicode lower case, and cryptography.
pub record Env : Type 0 where
  pub cfg : Config
  pub same_text : Text → Text → Bool
  pub cte_depth : ℕ
  pub lower : Text → Text
  pub sha256_hex : Text → Text
  pub bcrypt : Text → Option Text
  pub bcrypt_matches : Text → Text → Bool
  pub mime_of : Text → Text
  pub totp_valid : Text → Text → Bool
  pub sign_access : ℕ → Text → ℕ → Option Text
  pub mac : Text → Text
  pub base64_encode : Text → Text
  pub base64_decode : Text → Option Text

-- `totpAttempt`, and `attempt` of the share service: how many, and when the count starts anew.
pub record Attempt : Type 0 where
  pub count : ℕ
  pub reset_at : ℕ

-- `pendingTOTPEntry`.
pub record Pending : Type 0 where
  pub secret : Text
  pub created_at : ℕ

-- The maps that the services keep in memory: `totpAttempts` and `pendingTOTP` of `UserService`, and
-- the attempts at share passwords of `ShareService`.
pub record Memory : Type 0 where
  pub totp_attempts : ℕ → Option Attempt
  pub pending_totp : ℕ → Option Pending
  pub password_attempts : Text → Option Attempt

-- `uploadSession`, as session.json holds it. `FileHash` and `MimeType` are never written.
pub record UploadSession : Type 0 where
  pub upload_id : Text
  pub user_id : ℕ
  pub parent_id : Option ℕ
  pub name : Text
  pub total_size : ℕ
  pub chunk_size : ℕ
  pub chunk_count : ℕ
  pub created_at : ℕ

-- The directory tmp/chunks/<id>: session.json, the files of the chunks, and when an entry was added
-- last.
pub record UploadDir : Type 0 where
  pub session : UploadSession
  pub chunks : ℕ → Option Text
  pub modified : ℕ

-- The database and the disk, the clock, and what decides which calls of the database fail
-- (`faults n` for the n-th call) and what the random source yields (`none`: it fails).
pub record World : Type 0 where
  pub db : Db
  pub disk : Text → Option Text
  pub uploads : List UploadDir
  pub memory : Memory
  pub now : ℕ
  pub calls : ℕ
  pub faults : ℕ → Bool
  pub draws : ℕ
  pub random : ℕ → Option Text
