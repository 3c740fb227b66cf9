-- ===== src/Media.antt =====
-- internal/media: images of posts.
pub mod Service
pub mod Confirmation
pub mod Removal
pub mod Tests
