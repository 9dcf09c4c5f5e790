-- ===== src/OAuth.antt =====
-- src/oauth.rs: the device authorization grant of RFC 8628 and its rate limits. Instants are
-- seconds of one clock, and a `HashMap` is the list of its entries in the order of iteration.
pub mod Pending
pub mod Limiter
