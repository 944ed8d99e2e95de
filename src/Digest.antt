-- ===== src/Digest.antt =====
-- The structural index of a large file (sidecar/digest.py).
pub mod Scan
pub mod Index
pub mod Spans
pub mod Ends
pub mod Ranges
pub mod Fitting
pub mod Bounds
pub mod Topics
pub mod Modifiers
pub mod Examples
