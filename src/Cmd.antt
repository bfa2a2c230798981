-- ===== src/Cmd.antt =====
-- cmd: the two programs.
pub mod Manager
pub mod Diff
