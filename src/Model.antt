-- ===== src/Model.antt =====
-- src/model: identities, posts and the timeline.
pub mod Post
pub mod Identity
pub mod Timeline
