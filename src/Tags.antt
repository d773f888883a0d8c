-- ===== src/Tags.antt =====
-- backend/app/modules/tags: the tags of an organisation and their links.
pub mod Service
pub mod Links
pub mod Keys
pub mod Facts
pub mod Obtain
pub mod Adding
pub mod Removal
pub mod Deletion
pub mod Sync
pub mod Listing
pub mod Tests
