-- ===== src/Limits.antt =====
-- The limits on what a client may try: failed logins and requests.
pub mod Lockout
pub mod RateLimit
