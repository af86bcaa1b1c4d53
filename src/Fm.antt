-- ===== src/Fm.antt =====
-- fm/src: the file manager's history of directories.
pub mod History
pub mod Jobs
pub mod Trash
pub mod Conflict
pub mod Tree
mod Tests
mod FilesTests
