-- ===== src/Sepay.antt =====
-- The intake of SePay's messages: internal/sepay and internal/storage/sepay.go.
pub mod Amount
pub mod Texts
pub mod Notification
pub mod Tables
pub mod Ingest
