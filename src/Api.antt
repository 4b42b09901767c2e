-- ===== src/Api.antt =====
-- apps/api/routes: the handlers of the webhooks.
pub mod Whatsapp
