-- ===== src/Render.antt =====
-- internal/posts/renderer.go: Markdown to sanitized HTML.
pub mod Html
pub mod Urls
pub mod Attrs
pub mod Sanitize
pub mod Clean
pub mod Images
pub mod Tests
