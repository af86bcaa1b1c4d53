-- ===== src/Platform.antt =====
-- The library that the programs of the desktop share: platform/common.
pub mod ConfigWrite
mod Tests
