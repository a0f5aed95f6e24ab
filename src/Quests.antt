-- ===== src/Quests.antt =====
-- The quest service, src/modules/quests/quests.service.ts, and the repositories below it.
pub mod Streak
pub mod Dto
pub mod Distance
pub mod Completion
pub mod CheckIn
pub mod Editing
pub mod Ratings
pub mod Reading
