-- ===== src/Tests/Resolving.antt =====
-- internal/conflict on two conflict directories.
use dot_sync_manager.Base.{
  [], ◌∷◌, none, some, true, false, ◌≡◌, refl, codes, eq_text, lt_text, All, Text, ◌++◌,
  if◌then◌else◌, ◌&&◌,
}
use dot_sync_manager.Base.Dict.{lookup}
use dot_sync_manager.Base.Sort.{sort}
use dot_sync_manager.Base.Result.{ok}
use dot_sync_manager.Conflict.{
  ConflictDir, ConflictService, conflict_resolved, all_conflicts_resolved, local_suffix,
  find_latest_conflict_dir, holds, use_version, get_target_path, resolved, announce_all,
  has_conflicts,
}
use dot_sync_manager.Conflict.Resolving.{use_version_resolves}

abbrev older : ConflictDir
older = record {
  name = codes "1";
  time = some 10;
  files = (codes "rc.local", codes "a") ∷ (codes "rc.remote", codes "b") ∷ [];
  directories = 0;
}

abbrev newer : ConflictDir
newer = record {
  name = codes "2";
  time = some 20;
  files =
      (codes "rc.local", codes "c")
      ∷ (codes "rc.remote", codes "d")
      ∷ (codes "vim.remote", codes "e")
      ∷ [];
  directories = 0;
}

abbrev service : ConflictService
service = record {
  dirs = newer ∷ older ∷ [];
  mappings = (codes "rc", codes "/home/u/.rc") ∷ [];
  home = none;
  targets = [];
  events = [];
}

abbrev after_local : ConflictService
after_local = record service {
  dirs = record newer { files = (codes "vim.remote", codes "e") ∷ [] } ∷ older ∷ [];
  targets = (codes "/home/u/.rc", codes "c") ∷ [];
  events = conflict_resolved (codes "rc") ∷ [];
}

use_local_run : use_version local_suffix true true (codes "rc") service ≡ ok after_local
unfolding use_version announce_all resolved sort lt_text
use_local_run = refl

use_version_resolves_example :
    (d : ConflictDir) × (content : Text) × (target : Text) × (find_latest_conflict_dir
        (codes "rc")
        service.dirs
      ≡ ok d)
    × (lookup (codes "rc" ++ local_suffix) d.files ≡ some content)
    × (get_target_path service (codes "rc") ≡ ok target)
    × (lookup target after_local.targets ≡ some content)
    × All (λ e. (eq_text e.name d.name && holds (codes "rc") e) ≡ false) after_local.dirs
    × (after_local.events
        ≡ service.events
          ++ conflict_resolved (codes "rc")
            ∷ (if has_conflicts after_local.dirs then [] else all_conflicts_resolved ∷ []))
use_version_resolves_example =
    use_version_resolves local_suffix (codes "rc") true true service after_local use_local_run
