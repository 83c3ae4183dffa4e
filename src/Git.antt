-- ===== src/Git.antt =====
-- Package internal/gitmanager: committing and pushing (git_manager.go), the configuration (config.go)
-- and the stash around a pull (stash.go).
pub mod Commit
pub mod Pull
pub mod Settings
pub mod Stash
