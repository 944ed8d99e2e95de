-- ===== src/Web.antt =====
-- The browser console (sidecar/web).
pub mod Session
pub mod Values
pub mod Signed
pub mod Redirects
pub mod SignIn
pub mod Examples
