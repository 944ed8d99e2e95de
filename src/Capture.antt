-- ===== src/Capture.antt =====
-- The capture of a review's event feed (sidecar/reviewer/transcript.py).
pub mod Scrub
pub mod Cells
pub mod Clean
pub mod Secrets
pub mod Partial
pub mod Meter
pub mod Sinks
pub mod Session
pub mod Over
pub mod Prefix
mod Examples
