-- ===== src/Story.antt =====
-- internal/story: stories, their workflow and their ordering.
pub mod Types
pub mod Place
pub mod Rowwise
pub mod Frame
pub mod Validity
pub mod Blockers
pub mod Labels
pub mod View
pub mod Create
pub mod Update
pub mod Move
pub mod Trash
pub mod Comments
pub mod Tasks
