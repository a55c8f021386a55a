-- ===== src/Server.antt =====
-- The server: server/src.
pub mod Errors
pub mod Attributes
pub mod Disk
pub mod Nodes
pub mod Storage
pub mod Requests
pub mod Routes
pub mod Database
