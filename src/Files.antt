-- ===== src/Files.antt =====
-- apps/api/src/files: presigned uploads and downloads with byte ranges. The object store itself is
-- S3's; a download names the object and the bytes that it streams.
pub mod Range
pub mod Handlers
pub mod Served
pub mod Tests
