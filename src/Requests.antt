-- ===== src/Requests.antt =====
-- What the server makes of a request: who sends it, and the lists that its queries bind.
pub mod Conditional
pub mod FeedCursor
pub mod ClientIp
pub mod InClause
mod Tests
