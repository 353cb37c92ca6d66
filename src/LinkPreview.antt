-- ===== src/LinkPreview.antt =====
-- apps/api/src/link-preview: the guard against requests into the private network, and the fetch of a
-- page behind it.
pub mod SsrfGuard
pub mod Fetcher
pub mod Reserved
pub mod Fetched
pub mod Tests
