-- ===== src/Links.antt =====
-- The rules about what a link may point at (links/urls.py).
pub mod Address
pub mod Chunks
pub mod Parse
pub mod Spelling
pub mod Tests
