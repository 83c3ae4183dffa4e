-- ===== src/Git/Pull/Failing.antt =====
-- A pull that fails after the stash.
use dot_sync_manager.Base.Dict.{Dict}
