-- ===== src/Config/Tables.antt =====
-- internal/config/config.go: the fields of the settings, and the tables that name them.
use networkdisk.Prelude.{◌*◌, ◌^◌, Bool, true, false, List, [], ◌∷◌}
use networkdisk.Prelude.Int.{ℤ, pos}
use networkdisk.Text.{Text, bytes}

-- What a field holds, by its Go type: string, int or int64, bool, []string.
pub data Value : Type 0 where
  str : Text → Value
  int : ℤ → Value
  boolean : Bool → Value
  strs : List Text → Value

-- A key of the tables, split at its dot.
abbrev pub Key : Type 0
Key = Text × Text

-- `ServerConfig`, the fields with their TOML keys and zero values.
abbrev server_config : List (Text × Text × Value)
server_config =
    (bytes "Host", bytes "host", str [])
    ∷ (bytes "Port", bytes "port", int (pos 0))
    ∷ (bytes "ReadTimeout", bytes "read_timeout", str [])
    ∷ (bytes "WriteTimeout", bytes "write_timeout", str [])
    ∷ (bytes "IdleTimeout", bytes "idle_timeout", str [])
    ∷ (bytes "ShutdownTimeout", bytes "shutdown_timeout", str [])
    ∷ (bytes "RateLimit", bytes "rate_limit", int (pos 0))
    ∷ (bytes "RateLimitWindow", bytes "rate_limit_window", str [])
    ∷ (bytes "AllowedOrigins", bytes "allowed_origins", strs [])
    ∷ (bytes "TrustedProxy", bytes "trusted_proxy", str [])
    ∷ []

-- `DatabaseConfig`, the fields with their TOML keys and zero values.
abbrev database_config : List (Text × Text × Value)
database_config =
    (bytes "Host", bytes "host", str [])
    ∷ (bytes "Port", bytes "port", int (pos 0))
    ∷ (bytes "User", bytes "user", str [])
    ∷ (bytes "Password", bytes "password", str [])
    ∷ (bytes "Database", bytes "database", str [])
    ∷ (bytes "MaxOpenConns", bytes "max_open_conns", int (pos 0))
    ∷ (bytes "MaxIdleConns", bytes "max_idle_conns", int (pos 0))
    ∷ (bytes "ConnMaxLifetime", bytes "conn_max_lifetime", str [])
    ∷ []

-- `StorageConfig`, the fields with their TOML keys and zero values.
abbrev storage_config : List (Text × Text × Value)
storage_config =
    (bytes "Root", bytes "root", str [])
    ∷ (bytes "MaxFileSize", bytes "max_file_size", int (pos 0))
    ∷ (bytes "ThumbnailMaxSize", bytes "thumbnail_max_size", int (pos 0))
    ∷ (bytes "ThumbnailQuality", bytes "thumbnail_quality", int (pos 0))
    ∷ (bytes "ChunkSize", bytes "chunk_size", int (pos 0))
    ∷ (bytes "ChunkCleanTimeout", bytes "chunk_clean_timeout", str [])
    ∷ (bytes "AutoCleanRecycleDays", bytes "auto_clean_recycle_days", int (pos 0))
    ∷ (bytes "FfmpegPath", bytes "ffmpeg_path", str [])
    ∷ (bytes "TempLinkTTL", bytes "temp_link_ttl", str [])
    ∷ []

-- `UploadConfig`, the fields with their TOML keys and zero values.
abbrev upload_config : List (Text × Text × Value)
upload_config =
    (bytes "AllowedExtensions", bytes "allowed_extensions", strs [])
    ∷ (bytes "BlockedExtensions", bytes "blocked_extensions", strs [])
    ∷ (bytes "DetectMime", bytes "detect_mime", boolean false)
    ∷ (bytes "OnNameConflict", bytes "on_name_conflict", str [])
    ∷ []

-- `AuthConfig`, the fields with their TOML keys and zero values.
abbrev auth_config : List (Text × Text × Value)
auth_config =
    (bytes "JWTSecret", bytes "jwt_secret", str [])
    ∷ (bytes "JWTExpire", bytes "jwt_expire", str [])
    ∷ (bytes "RefreshExpire", bytes "refresh_expire", str [])
    ∷ (bytes "BcryptCost", bytes "bcrypt_cost", int (pos 0))
    ∷ (bytes "TOTPIssuer", bytes "totp_issuer", str [])
    ∷ []

-- `LogConfig`, the fields with their TOML keys and zero values.
abbrev log_config : List (Text × Text × Value)
log_config =
    (bytes "Level", bytes "level", str [])
    ∷ (bytes "Format", bytes "format", str [])
    ∷ (bytes "File", bytes "file", str [])
    ∷ (bytes "AuditRetentionDays", bytes "audit_retention_days", int (pos 0))
    ∷ []

-- `ShareConfig`, the fields with their TOML keys and zero values.
abbrev share_config : List (Text × Text × Value)
share_config =
    (bytes "DefaultExpire", bytes "default_expire", str [])
    ∷ (bytes "MaxPasswordAttempts", bytes "max_password_attempts", int (pos 0))
    ∷ (bytes "BcryptCost", bytes "bcrypt_cost", int (pos 0))
    ∷ (bytes "PasswordRateLimitReset", bytes "password_rate_limit_reset", str [])
    ∷ []

-- `Config`: the sections with their TOML keys.
abbrev pub config : List (Text × Text × List (Text × Text × Value))
config =
    (bytes "Server", bytes "server", server_config)
    ∷ (bytes "Database", bytes "database", database_config)
    ∷ (bytes "Storage", bytes "storage", storage_config)
    ∷ (bytes "Upload", bytes "upload", upload_config)
    ∷ (bytes "Auth", bytes "auth", auth_config)
    ∷ (bytes "Log", bytes "log", log_config)
    ∷ (bytes "Share", bytes "share", share_config)
    ∷ []

abbrev pub defaults : List (Key × Value)
defaults =
    ((bytes "server", bytes "host"), str (bytes "0.0.0.0"))
    ∷ ((bytes "server", bytes "port"), int (pos 24003))
    ∷ ((bytes "server", bytes "read_timeout"), str (bytes "300s"))
    ∷ ((bytes "server", bytes "write_timeout"), str (bytes "300s"))
    ∷ ((bytes "server", bytes "idle_timeout"), str (bytes "120s"))
    ∷ ((bytes "server", bytes "shutdown_timeout"), str (bytes "10s"))
    ∷ ((bytes "server", bytes "rate_limit"), int (pos 60))
    ∷ ((bytes "server", bytes "rate_limit_window"), str (bytes "1m"))
    ∷ ((bytes "database", bytes "host"), str (bytes "127.0.0.1"))
    ∷ ((bytes "database", bytes "port"), int (pos 3306))
    ∷ ((bytes "database", bytes "max_open_conns"), int (pos 25))
    ∷ ((bytes "database", bytes "max_idle_conns"), int (pos 5))
    ∷ ((bytes "database", bytes "conn_max_lifetime"), str (bytes "5m"))
    ∷ ((bytes "storage", bytes "root"), str (bytes "./data"))
    ∷ ((bytes "storage", bytes "max_file_size"), int (pos (100 * 2 ^ 20)))
    ∷ ((bytes "storage", bytes "thumbnail_max_size"), int (pos (50 * 2 ^ 20)))
    ∷ ((bytes "storage", bytes "thumbnail_quality"), int (pos 80))
    ∷ ((bytes "storage", bytes "chunk_size"), int (pos (10 * 2 ^ 20)))
    ∷ ((bytes "storage", bytes "chunk_clean_timeout"), str (bytes "24h"))
    ∷ ((bytes "storage", bytes "auto_clean_recycle_days"), int (pos 30))
    ∷ ((bytes "storage", bytes "ffmpeg_path"), str [])
    ∷ ((bytes "upload", bytes "detect_mime"), boolean true)
    ∷ ((bytes "upload", bytes "on_name_conflict"), str (bytes "rename"))
    ∷ ((bytes "auth", bytes "jwt_expire"), str (bytes "15m"))
    ∷ ((bytes "auth", bytes "refresh_expire"), str (bytes "7d"))
    ∷ ((bytes "auth", bytes "bcrypt_cost"), int (pos 12))
    ∷ ((bytes "auth", bytes "totp_issuer"), str (bytes "NetworkDisk"))
    ∷ ((bytes "log", bytes "level"), str (bytes "info"))
    ∷ ((bytes "log", bytes "format"), str (bytes "text"))
    ∷ ((bytes "log", bytes "audit_retention_days"), int (pos 365))
    ∷ ((bytes "share", bytes "default_expire"), str [])
    ∷ ((bytes "share", bytes "max_password_attempts"), int (pos 5))
    ∷ ((bytes "share", bytes "bcrypt_cost"), int (pos 6))
    ∷ ((bytes "share", bytes "password_rate_limit_reset"), str (bytes "15m"))
    ∷ ((bytes "storage", bytes "temp_link_ttl"), str (bytes "1h"))
    ∷ []

-- The keys that a reload does not change; all entries of the table are false.
abbrev pub reload_whitelist : List (Key × Bool)
reload_whitelist =
    ((bytes "auth", bytes "jwt_secret"), false)
    ∷ ((bytes "database", bytes "host"), false)
    ∷ ((bytes "database", bytes "port"), false)
    ∷ ((bytes "database", bytes "user"), false)
    ∷ ((bytes "database", bytes "password"), false)
    ∷ ((bytes "database", bytes "database"), false)
    ∷ ((bytes "database", bytes "max_open_conns"), false)
    ∷ ((bytes "database", bytes "max_idle_conns"), false)
    ∷ ((bytes "database", bytes "conn_max_lifetime"), false)
    ∷ []

-- The names of variables of the environment.
abbrev pub env_mapping : List (Key × Text)
env_mapping =
    ((bytes "server", bytes "host"), bytes "NETWORKDISK_SERVER_HOST")
    ∷ ((bytes "server", bytes "port"), bytes "NETWORKDISK_SERVER_PORT")
    ∷ ((bytes "server", bytes "read_timeout"), bytes "NETWORKDISK_SERVER_READ_TIMEOUT")
    ∷ ((bytes "server", bytes "write_timeout"), bytes "NETWORKDISK_SERVER_WRITE_TIMEOUT")
    ∷ ((bytes "server", bytes "idle_timeout"), bytes "NETWORKDISK_SERVER_IDLE_TIMEOUT")
    ∷ ((bytes "server", bytes "shutdown_timeout"), bytes "NETWORKDISK_SERVER_SHUTDOWN_TIMEOUT")
    ∷ ((bytes "server", bytes "rate_limit"), bytes "NETWORKDISK_SERVER_RATE_LIMIT")
    ∷ ((bytes "server", bytes "rate_limit_window"), bytes "NETWORKDISK_SERVER_RATE_LIMIT_WINDOW")
    ∷ ((bytes "database", bytes "host"), bytes "NETWORKDISK_DATABASE_HOST")
    ∷ ((bytes "database", bytes "port"), bytes "NETWORKDISK_DATABASE_PORT")
    ∷ ((bytes "database", bytes "user"), bytes "NETWORKDISK_DATABASE_USER")
    ∷ ((bytes "database", bytes "password"), bytes "NETWORKDISK_DATABASE_PASSWORD")
    ∷ ((bytes "database", bytes "database"), bytes "NETWORKDISK_DATABASE_DATABASE")
    ∷ ((bytes "database", bytes "max_open_conns"), bytes "NETWORKDISK_DATABASE_MAX_OPEN_CONNS")
    ∷ ((bytes "database", bytes "max_idle_conns"), bytes "NETWORKDISK_DATABASE_MAX_IDLE_CONNS")
    ∷ (
      (bytes "database", bytes "conn_max_lifetime"),
      bytes "NETWORKDISK_DATABASE_CONN_MAX_LIFETIME",
    )
    ∷ ((bytes "storage", bytes "root"), bytes "NETWORKDISK_STORAGE_ROOT")
    ∷ ((bytes "storage", bytes "max_file_size"), bytes "NETWORKDISK_STORAGE_MAX_FILE_SIZE")
    ∷ (
      (bytes "storage", bytes "thumbnail_max_size"),
      bytes "NETWORKDISK_STORAGE_THUMBNAIL_MAX_SIZE",
    )
    ∷ ((bytes "storage", bytes "thumbnail_quality"), bytes "NETWORKDISK_STORAGE_THUMBNAIL_QUALITY")
    ∷ ((bytes "storage", bytes "chunk_size"), bytes "NETWORKDISK_STORAGE_CHUNK_SIZE")
    ∷ (
      (bytes "storage", bytes "chunk_clean_timeout"),
      bytes "NETWORKDISK_STORAGE_CHUNK_CLEAN_TIMEOUT",
    )
    ∷ (
      (bytes "storage", bytes "auto_clean_recycle_days"),
      bytes "NETWORKDISK_STORAGE_AUTO_CLEAN_RECYCLE_DAYS",
    )
    ∷ ((bytes "storage", bytes "ffmpeg_path"), bytes "NETWORKDISK_STORAGE_FFMPEG_PATH")
    ∷ ((bytes "upload", bytes "allowed_extensions"), bytes "NETWORKDISK_UPLOAD_ALLOWED_EXTENSIONS")
    ∷ ((bytes "upload", bytes "blocked_extensions"), bytes "NETWORKDISK_UPLOAD_BLOCKED_EXTENSIONS")
    ∷ ((bytes "upload", bytes "detect_mime"), bytes "NETWORKDISK_UPLOAD_DETECT_MIME")
    ∷ ((bytes "upload", bytes "on_name_conflict"), bytes "NETWORKDISK_UPLOAD_ON_NAME_CONFLICT")
    ∷ ((bytes "auth", bytes "jwt_secret"), bytes "NETWORKDISK_AUTH_JWT_SECRET")
    ∷ ((bytes "auth", bytes "jwt_expire"), bytes "NETWORKDISK_AUTH_JWT_EXPIRE")
    ∷ ((bytes "auth", bytes "refresh_expire"), bytes "NETWORKDISK_AUTH_REFRESH_EXPIRE")
    ∷ ((bytes "auth", bytes "bcrypt_cost"), bytes "NETWORKDISK_AUTH_BCRYPT_COST")
    ∷ ((bytes "auth", bytes "totp_issuer"), bytes "NETWORKDISK_AUTH_TOTP_ISSUER")
    ∷ ((bytes "log", bytes "level"), bytes "NETWORKDISK_LOG_LEVEL")
    ∷ ((bytes "log", bytes "format"), bytes "NETWORKDISK_LOG_FORMAT")
    ∷ ((bytes "log", bytes "file"), bytes "NETWORKDISK_LOG_FILE")
    ∷ ((bytes "log", bytes "audit_retention_days"), bytes "NETWORKDISK_LOG_AUDIT_RETENTION_DAYS")
    ∷ ((bytes "share", bytes "default_expire"), bytes "NETWORKDISK_SHARE_DEFAULT_EXPIRE")
    ∷ (
      (bytes "share", bytes "max_password_attempts"),
      bytes "NETWORKDISK_SHARE_MAX_PASSWORD_ATTEMPTS",
    )
    ∷ ((bytes "share", bytes "bcrypt_cost"), bytes "NETWORKDISK_SHARE_BCRYPT_COST")
    ∷ (
      (bytes "share", bytes "password_rate_limit_reset"),
      bytes "NETWORKDISK_SHARE_PASSWORD_RATE_LIMIT_RESET",
    )
    ∷ ((bytes "storage", bytes "temp_link_ttl"), bytes "NETWORKDISK_STORAGE_TEMP_LINK_TTL")
    ∷ []

-- The table of `fieldName`.
abbrev pub field_names : List (Text × Text)
field_names =
    (bytes "read_timeout", bytes "ReadTimeout")
    ∷ (bytes "write_timeout", bytes "WriteTimeout")
    ∷ (bytes "idle_timeout", bytes "IdleTimeout")
    ∷ (bytes "shutdown_timeout", bytes "ShutdownTimeout")
    ∷ (bytes "max_open_conns", bytes "MaxOpenConns")
    ∷ (bytes "max_idle_conns", bytes "MaxIdleConns")
    ∷ (bytes "conn_max_lifetime", bytes "ConnMaxLifetime")
    ∷ (bytes "jwt_secret", bytes "JWTSecret")
    ∷ (bytes "jwt_expire", bytes "JWTExpire")
    ∷ (bytes "refresh_expire", bytes "RefreshExpire")
    ∷ (bytes "bcrypt_cost", bytes "BcryptCost")
    ∷ (bytes "totp_issuer", bytes "TOTPIssuer")
    ∷ (bytes "max_file_size", bytes "MaxFileSize")
    ∷ (bytes "thumbnail_max_size", bytes "ThumbnailMaxSize")
    ∷ (bytes "thumbnail_quality", bytes "ThumbnailQuality")
    ∷ (bytes "chunk_size", bytes "ChunkSize")
    ∷ (bytes "chunk_clean_timeout", bytes "ChunkCleanTimeout")
    ∷ (bytes "auto_clean_recycle_days", bytes "AutoCleanRecycleDays")
    ∷ (bytes "temp_link_ttl", bytes "TempLinkTTL")
    ∷ (bytes "audit_retention_days", bytes "AuditRetentionDays")
    ∷ (bytes "default_expire", bytes "DefaultExpire")
    ∷ (bytes "max_password_attempts", bytes "MaxPasswordAttempts")
    ∷ (bytes "allowed_extensions", bytes "AllowedExtensions")
    ∷ (bytes "blocked_extensions", bytes "BlockedExtensions")
    ∷ (bytes "detect_mime", bytes "DetectMime")
    ∷ (bytes "on_name_conflict", bytes "OnNameConflict")
    ∷ []
