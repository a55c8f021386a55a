-- ===== src/System.antt =====
-- The client and the server together.
pub mod Link
pub mod EndToEnd
pub mod Uploads
