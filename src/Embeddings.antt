-- ===== src/Embeddings.antt =====
-- talap/embeddings: the client of the embedding provider.
pub mod Jina
