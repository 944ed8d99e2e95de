-- ===== src/Checkout.antt =====
-- A pull request's diff (sidecar/reviewer/checkout.py).
pub mod Diff
pub mod Unified
pub mod Numbers
pub mod Hunks
pub mod Targets
pub mod ReadBack
pub mod Context
pub mod Truncation
mod Examples
