-- ===== src/Catalog.antt =====
-- talap/catalog: the import of a merchant's CSV catalog.
pub mod Rows
pub mod Semantic
pub mod Parser
pub mod Mutation
pub mod Importer
mod Examples
