-- ===== src/Kae.antt =====
-- kae-device-plugin (pkg/kae-device-plugin): the admission webhook of the KAE accelerators.
pub mod Webhook
