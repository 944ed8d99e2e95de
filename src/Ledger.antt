-- ===== src/Ledger.antt =====
-- The review ledgers of sidecar/review_state.py and sidecar/reviewer/ledger.py.
pub mod Rows
pub mod Table
pub mod Actions
pub mod Writes
pub mod Reads
pub mod Coverage
pub mod Prior
pub mod Tree
pub mod Carry
pub mod Claims
pub mod Settle
pub mod Steps
pub mod Rounds
pub mod Lanes
pub mod History
pub mod Ids
pub mod Keeps
pub mod OpenRows
pub mod NoLoss
pub mod Verdicts
pub mod Settled
pub mod Published
pub mod CarriedRows
pub mod Carried
pub mod Round
pub mod Closing
pub mod Window
pub mod Modes
pub mod Shown
pub mod Accepted
pub mod Retiring
pub mod Transitions
pub mod Expiry
pub mod Fixtures
pub mod Facts
mod Examples
