-- ===== src/Calls.antt =====
-- Voice and video calls: the wire contract (packages/api/src/types/call.ts) and the signaling
-- engine (src/backend/runtime/call-hub-core.ts).
pub mod Wire
pub mod Frames
pub mod Hub
