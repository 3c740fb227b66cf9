-- ===== src/Imports.antt =====
-- internal/import: a document becomes Markdown, and the Markdown a draft.
pub mod Convert
pub mod Source
pub mod Service
pub mod Conversion
pub mod Draft
pub mod Tests
