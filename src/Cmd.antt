-- ===== src/Cmd.antt =====
-- The commands under cmd/ that change files or the configuration, less flags, prompts and printing.
pub mod Add
pub mod Keys
pub mod Remove
