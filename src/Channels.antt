-- ===== src/Channels.antt =====
-- talap/channels: what comes from the messaging platforms, brought into one form.
pub mod Inbound
pub mod Whatsapp
