-- ===== src/Files.antt =====
-- internal/service/file.go: `FileService`.
pub mod Guards
pub mod Trash
pub mod Place
pub mod Purge
pub mod Quota
pub mod Requests
