-- ===== src/Paths.antt =====
-- Paths and their bytes.
mod Components
mod Utf8
mod Parse
unfoldable pub use Components.*
unfoldable pub use Utf8.*
unfoldable pub use Parse.*
