-- ===== src/Social.antt =====
-- Comments, follows and notifications (src/social).
pub mod Types
pub mod Notices
pub mod Service
pub mod Views
pub mod Threads
pub mod Run
mod Tests
