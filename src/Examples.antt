-- ===== src/Examples.antt =====
-- The theorems at concrete inputs, and tests.
mod Buffers
mod Pages
mod Cache
mod Server
mod Model
mod Database
mod Disk
mod Storage
mod Routes
mod Fuse
mod System
mod Uploads
mod Windows
mod Gui
mod Startup
mod Directories
