-- ===== src/Knowledge.antt =====
-- What the knowledge stores share: sidecar/dedup.py, and sidecar/chunking.py.
pub mod Dedup
pub mod Batches
pub mod Distinct
pub mod Chunks
pub mod ChunkBounds
pub mod Content
pub mod Markdown
pub mod MarkdownContent
pub mod MarkdownBounds
mod Examples
