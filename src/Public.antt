-- ===== src/Public.antt =====
-- internal/publicapi: the public reads.
pub mod Codec
pub mod Response
pub mod Srcset
pub mod Pages
pub mod Reads
mod CodecLaws
mod Order
mod Rest
mod Following
mod Paging
mod Revalidation
mod Conditional
mod Visibility
mod Agreement
mod Images
mod Samples
mod Tests
