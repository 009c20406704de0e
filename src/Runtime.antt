-- ===== src/Runtime.antt =====
-- src/backend/runtime: the stores that the runtimes without Cloudflare bindings use.
pub mod MemoryKv
pub mod OneTimeTicket
