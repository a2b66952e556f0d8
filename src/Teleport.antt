-- ===== src/Teleport.antt =====
-- The framing of a teleport bundle (src/teleport).
pub mod Base64Url
