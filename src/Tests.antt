-- ===== src/Tests.antt =====
-- Runs on small inputs, and the theorems at inputs where their conditions hold.
mod Debouncing
mod Queueing
mod Syncing
mod Performing
mod Configuring
mod Committing
mod Stashing
mod Resolving
mod Ignoring
mod Adding
mod Linking
mod Removing
mod Locking
mod Pulling
mod Editing
