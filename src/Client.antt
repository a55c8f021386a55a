-- ===== src/Client.antt =====
-- The client: client/src.
pub mod Attributes
pub mod Errors
pub mod Action
pub mod Pages
pub mod Items
pub mod Cache
pub mod Network
pub mod WriteBuffer
pub mod ReadBuffer
pub mod Model
pub mod Remote
pub mod Fuse
pub mod Windows
pub mod Config
pub mod Startup
pub mod Commands
pub mod Gui
