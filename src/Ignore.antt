-- ===== src/Ignore.antt =====
-- The ignore rules of src/git.rs: glob patterns, `.gitignore` lines and configured patterns.
pub mod Glob
pub mod Rules
pub mod Order
pub mod Components
