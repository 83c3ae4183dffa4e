-- ===== src/Conflict/Resolving.antt =====
-- UseLocal and UseRemote: what a resolution leaves behind.
use dot_sync_manager.Base.{
  [], ◌∷◌, ◌++◌, none, some, Bool, true, false, not, ◌&&◌, if◌then◌else◌, append_assoc, Text,
  is_some, eq_text, ◌≡◌, refl, sym, arith, inl, inr, Option-cases, Bool-cases, All,
}
use dot_sync_manager.Base.Dict.{lookup, insert, lookup-insert_self}
use dot_sync_manager.Base.Result.{ok, err, Result-cases, ok-inj}
use dot_sync_manager.Conflict.{
  ConflictDir, ConflictService, holds, find_latest, remove_conflict_artifacts, use_version,
  resolved, announce_all, find_latest_conflict_dir, get_target_path, conflict_resolved, copy_failed,
  remove_failed, all_conflicts_resolved, has_conflicts,
}
use dot_sync_manager.Conflict.Newest.{found_time}
use dot_sync_manager.Conflict.Removing.{
  found_time-find_latest, latest-remove, removed_from, held_elsewhere, latest-held,
}

-- The state after a resolution that succeeds.
abbrev settled : ConflictDir → Text → Text → Text → ConflictService → ConflictService
settled d target content file s =
    announce_all (resolved d.name file (record s { targets = insert target content s.targets }))

use_version_success :
    (suffix file : Text) (copy_ok remove_ok : Bool) (s s' : ConflictService)
    → use_version suffix copy_ok remove_ok file s ≡ ok s'
    → (d : ConflictDir) × (content : Text) × (target : Text) × (find_latest_conflict_dir file s.dirs
        ≡ ok d)
      × (lookup (file ++ suffix) d.files ≡ some content)
      × (get_target_path s file ≡ ok target)
      × (s' ≡ settled d target content file s)
unfolding use_version
use_version_success suffix file copy_ok remove_ok s s' done =
    elim (Result-cases (find_latest_conflict_dir file s.dirs)) [
      | inr (_, lost) ↦ absurd (ground arith)
      | inl (d, found) ↦ elim (Option-cases (lookup (file ++ suffix) d.files)) [
        | inl missing ↦ absurd (ground arith)
        | inr (content, there) ↦ elim (Result-cases (get_target_path s file)) [
          | inr (_, unknown) ↦ absurd (ground arith)
          | inl (target, known) ↦ (
            d,
            content,
            target,
            found,
            there,
            known,
            last_lem copy_ok remove_ok (settled d target content file s) s' (ground arith),
          )
        ]
      ]
    ]
  where
    last_lem :
        (copy_ok remove_ok : Bool) (a b : ConflictService)
        → (if not copy_ok
            then err copy_failed
            else if not remove_ok
            then err remove_failed
            else ok a)
          ≡ ok b
        → b ≡ a
    last_lem true true a b e = sym (ok-inj a b e)
    last_lem true false a b e = absurd (cc)
    last_lem false r a b e = absurd (cc)

dirs-settled :
    (d : ConflictDir) (target content file : Text) (s : ConflictService)
    → (settled d target content file s).dirs ≡ remove_conflict_artifacts d.name file s.dirs
unfolding announce_all resolved
dirs-settled d target content file s = ground arith

targets-settled :
    (d : ConflictDir) (target content file : Text) (s : ConflictService)
    → (settled d target content file s).targets ≡ insert target content s.targets
unfolding announce_all resolved
targets-settled d target content file s = ground arith

events-settled :
    (d : ConflictDir) (target content file : Text) (s : ConflictService)
    → (settled d target content file s).events
      ≡ s.events
        ++ conflict_resolved file
          ∷ (if has_conflicts (remove_conflict_artifacts d.name file s.dirs)
              then []
              else all_conflicts_resolved ∷ [])
unfolding announce_all resolved
events-settled d target content file s =
    elim (Bool-cases (has_conflicts (remove_conflict_artifacts d.name file s.dirs))) [
      | inl left ↦ rw left refl
      | inr none_left ↦
          rw none_left
            (append_assoc s.events (conflict_resolved file ∷ []) (all_conflicts_resolved ∷ []))
    ]

-- A UseLocal or UseRemote (by the suffix of the version) that succeeds found the file's latest conflict
-- directory and that version in it, wrote the version to the mapped target, left no directory of that name
-- with the file, and announced the file and, only if no conflict is left, the end of all conflicts.
pub use_version_resolves :
    (suffix file : Text) (copy_ok remove_ok : Bool) (s s' : ConflictService)
    → use_version suffix copy_ok remove_ok file s ≡ ok s'
    → (d : ConflictDir) × (content : Text) × (target : Text) × (find_latest_conflict_dir file s.dirs
        ≡ ok d)
      × (lookup (file ++ suffix) d.files ≡ some content)
      × (get_target_path s file ≡ ok target)
      × (lookup target s'.targets ≡ some content)
      × All (λ e. (eq_text e.name d.name && holds file e) ≡ false) s'.dirs
      × (s'.events
          ≡ s.events
            ++ conflict_resolved file
              ∷ (if has_conflicts s'.dirs then [] else all_conflicts_resolved ∷ []))
use_version_resolves suffix file copy_ok remove_ok s s' done =
    let (d, content, target, found, there, known, e) =
      use_version_success suffix file copy_ok remove_ok s s' done in
    let dirs' = dirs-settled d target content file s in
    (
      d,
      content,
      target,
      found,
      there,
      known,
      rw (e, targets-settled d target content file s) (lookup-insert_self target content s.targets),
      rw (e, dirs') (removed_from d.name file s.dirs),
      rw (e, dirs') (events-settled d target content file s),
    )

-- A UseLocal or UseRemote that succeeds leaves every other file listed as it was, at the same time.
use_version_keeps :
    (suffix file other : Text) (copy_ok remove_ok : Bool) (s s' : ConflictService)
    → use_version suffix copy_ok remove_ok file s ≡ ok s'
    → eq_text file other ≡ false
    → found_time (find_latest other s'.dirs none) ≡ found_time (find_latest other s.dirs none)
use_version_keeps suffix file other copy_ok remove_ok s s' done differs =
    let (d, content, target, _, _, _, e) =
      use_version_success suffix file copy_ok remove_ok s s' done in
    rw
      (
        e,
        dirs-settled d target content file s,
        found_time-find_latest other (remove_conflict_artifacts d.name file s.dirs) none,
        found_time-find_latest other s.dirs none,
      )
      (latest-remove other d.name file s.dirs none differs)

-- After a UseLocal or UseRemote that succeeds, the file is still in conflict if a timestamped directory
-- other than the latest one has it.
use_version_relists :
    (suffix file : Text) (copy_ok remove_ok : Bool) (s s' : ConflictService) (d : ConflictDir)
    → use_version suffix copy_ok remove_ok file s ≡ ok s'
    → find_latest_conflict_dir file s.dirs ≡ ok d
    → held_elsewhere d.name file s.dirs ≡ true
    → is_some (found_time (find_latest file s'.dirs none)) ≡ true
use_version_relists suffix file copy_ok remove_ok s s' d done found held =
    let (b, content, target, found', _, _, e) =
      use_version_success suffix file copy_ok remove_ok s s' done in
    let same : b ≡ d = ground arith in
    rw
      (
        e,
        dirs-settled b target content file s,
        found_time-find_latest file (remove_conflict_artifacts b.name file s.dirs) none,
        same,
      )
      (latest-held d.name file s.dirs none held)
