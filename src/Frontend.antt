-- ===== src/Frontend.antt =====
-- The web app's calculations (frontend/src/lib/optara).
pub mod Availability
pub mod Depth
pub mod Limits
pub mod Format
pub mod Tests
