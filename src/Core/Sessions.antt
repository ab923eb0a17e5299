-- ===== src/Core/Sessions.antt =====
-- packages/core/src/operations/session.ts: the session of a token, its revocation and its creation.
-- A value of the right type is in its types; a call of a port that throws is an exception of the
-- operation, unless the source catches it.
pub mod Defs
pub mod Steps
pub mod Found
pub mod Concealed
pub mod Revoke
pub mod Create
pub mod Issued
