-- ===== src/Inbox.antt =====
-- Inbound ActivityPub traffic (src/backend/lib).
pub mod NoteUpdates
mod Tests
