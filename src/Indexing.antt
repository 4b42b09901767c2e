-- ===== src/Indexing.antt =====
-- talap/indexing: the queue of product indexing tasks, the documents that are embedded, and the
-- processing of one claimed task.
pub mod Worker
pub mod Documents
pub mod Rows
pub mod Processor
mod Examples
