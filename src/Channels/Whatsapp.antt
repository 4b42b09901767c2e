-- ===== src/Channels/Whatsapp.antt =====
-- talap/channels/whatsapp.
pub mod Normalizer
pub mod Security
