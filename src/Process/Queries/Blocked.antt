-- ===== src/Process/Queries/Blocked.antt =====
-- A PID file that cannot be read.
