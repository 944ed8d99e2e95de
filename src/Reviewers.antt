-- ===== src/Reviewers.antt =====
-- What the reviewers of a pull request have done (sidecar/status.py).
pub mod Rows
pub mod Coderabbit
pub mod Done
pub mod Receipts
pub mod Coverage
pub mod Examples
