-- ===== src/Posts.antt =====
-- internal/posts: the life of a post, and its slugs.
pub mod Slugs
pub mod Service
pub mod SlugShape
pub mod SlugSearch
pub mod Errors
pub mod Inversion
pub mod Transition
pub mod Creation
pub mod Edits
pub mod Removal
pub mod ForeignRows
pub mod Success
pub mod Foreign
pub mod Tests
pub mod SlugTests
pub mod SuccessTests
