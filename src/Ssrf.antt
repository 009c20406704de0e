-- ===== src/Ssrf.antt =====
-- src/backend/lib/ssrf.ts: which addresses and URLs a request of the server may go to.
pub mod Text
pub mod Ipv4
pub mod Ipv6
pub mod Ranges
pub mod Urls
pub mod Safety
pub mod Resolution
mod Tests
