-- ===== src/Debouncer.antt =====
-- Package internal/debouncer: the timers of the Go runtime as both debouncers use them, the basic
-- debouncer (debouncer.go) and the one with backoff and manual syncs (advanced_debouncer.go).
pub mod Timers
pub mod Basic
pub mod Backoff
pub mod Advanced
pub mod Interface
