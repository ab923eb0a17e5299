-- ===== src/Token.antt =====
-- How a session token is made and carried: packages/token-opaque/src and packages/carrier-cookie/src.
pub mod Opaque
pub mod Cookie
pub mod Carried
