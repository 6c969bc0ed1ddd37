-- ===== src/Ocm.antt =====
-- pkg/ocm: the client of OCM repositories that the controllers use.
pub mod Library
pub mod Credentials
pub mod Fetch
pub mod Cached
pub mod Versions
pub mod Latest
pub mod Verify
pub mod Verified
