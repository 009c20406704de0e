-- ===== src/Realtime.antt =====
-- The realtime stream of a user (src/backend/runtime/realtime-stream*.ts).
pub mod Body
pub mod Stream
pub mod Storage
mod Tests
