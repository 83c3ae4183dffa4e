-- ===== src/Symlink/Backup/Failing.antt =====
-- BackupExisting where it fails.
use dot_sync_manager.Base.{
  ℕ, Option, none, some, Bool, true, false, ◌<◌, if◌then◌else◌, Text, eq_text, eq_text_iff, ◌≡◌, ap,
  ◌∙◌, arith, inl, inr, Option-cases, Bool-cases, has_prefix, ◌++◌, ◌∷◌, [],
}
use dot_sync_manager.Base.Dict.{lookup, insert, lookup-insert, lookup-insert_self}
use dot_sync_manager.Base.Paths.{slash}
use dot_sync_manager.Base.Result.{Result, ok, err}
use dot_sync_manager.Files.{Node, file, FileSystem, stat, copy_file, remove_all}
use dot_sync_manager.Files.Finding.{stat_at}
use dot_sync_manager.Files.Laws.{copy_onto_others, lookup-remove_all}
use dot_sync_manager.Symlink.Backup.{
  BackupWorld, BackupError, copy_failed, max_attempts, unique_path, placeholder, copy_node,
  finish_backup, backup_existing,
}
use dot_sync_manager.Symlink.Backup.Keeping.{claim_lem}
use dot_sync_manager.Symlink.Backup.Claiming.{
  attempt_path, unique_path_first, unique_path_unclaimed,
}

finish_unnamed :
    (w : BackupWorld) (node : Node) (target : Text) (claimed : Option Text) (e : BackupError)
    (fs fs' : FileSystem)
    → finish_backup w node target (claimed, fs) ≡ (err e, fs')
    → claimed ≡ none
    → fs' ≡ fs
unfolding finish_backup
finish_unnamed w node target none e fs fs' done unnamed = ground arith
finish_unnamed w node target (some path) e fs fs' done unnamed = absurd (cc)

-- A second half that fails leaves the other paths as they were.
finish_backup_failure :
    (w : BackupWorld) (target path q c : Text) (m : ℕ) (e : BackupError) (claimed : Option Text)
    (fs fs' : FileSystem)
    → finish_backup w (file c m) target (claimed, fs) ≡ (err e, fs')
    → claimed ≡ some path
    → lookup path fs ≡ some (file [] 0o644)
    → eq_text path q ≡ false
    → has_prefix q (path ++ slash ∷ []) ≡ false
    → lookup q fs' ≡ lookup q fs
unfolding finish_backup copy_node
finish_backup_failure w target path q c m e none fs fs' done named there other apart = absurd (cc)
finish_backup_failure w target path q c m e (some p) fs fs' done named there other apart =
    let same_path : p ≡ path = ground arith in
    let there' : lookup p fs ≡ some (file [] 0o644) = rw same_path there in
    let other' : eq_text p q ≡ false = rw same_path other in
    let apart' : has_prefix q (p ++ slash ∷ []) ≡ false = rw same_path apart in
    let copied = copy_file w.opens w.copies target p fs in
    let same : lookup q copied.1 ≡ lookup q fs =
      copy_onto_others w.opens w.copies target p q [] 0o644 fs there' other' in
    let other'' : eq_text q p ≡ false = ground (arith, eq_text_iff q p, eq_text_iff p q) in
    failure_lem w copied p q e fs' (lookup-remove_all p q copied.1) other'' apart' done ∙ same
  where
    failure_lem :
        (w : BackupWorld) (copied : Bool × FileSystem) (p q : Text) (e : BackupError)
        (fs' : FileSystem)
        → (lookup q (remove_all p copied.1) ≡ (
            if eq_text q p
            then none
            else if has_prefix q (p ++ slash ∷ [])
            then none
            else lookup q copied.1))
        → eq_text q p ≡ false
        → has_prefix q (p ++ slash ∷ []) ≡ false
        → ◌≡◌ {A = Result BackupError Text × FileSystem}
            (if copied.0
              then (ok p, copied.1)
              else (err copy_failed, if w.removes then remove_all p copied.1 else copied.1))
            (err e, fs')
        → lookup q fs' ≡ lookup q copied.1
    failure_lem w (true, g) p q e fs' r o a d = absurd (ground arith)
    failure_lem w (false, g) p q e fs' r o a d = ground arith

backup_existing_started :
    (w : BackupWorld) (backup_dir target c : Text) (m : ℕ) (e : BackupError) (fs fs' : FileSystem)
    → backup_existing w backup_dir target fs ≡ (err e, fs')
    → stat target fs ≡ some (file c m)
    → w.makes_dir ≡ true
    → finish_backup w
        (file c m)
        target
        (unique_path max_attempts 0 w.claims backup_dir w.stamp target (file [] 0o644) fs)
      ≡ (err e, fs')
unfolding backup_existing placeholder
backup_existing_started w backup_dir target c m e fs fs' done found makes = ground arith

unstarted :
    (w : BackupWorld) (backup_dir target c : Text) (m : ℕ) (e : BackupError) (fs fs' : FileSystem)
    → backup_existing w backup_dir target fs ≡ (err e, fs')
    → stat target fs ≡ some (file c m)
    → w.makes_dir ≡ false
    → fs' ≡ fs
unfolding backup_existing
unstarted w backup_dir target c m e fs fs' done found no_dir = ground arith

-- A backup that fails leaves the file as it was, where no name of a backup is a directory above it.
pub backup_existing_fails :
    (w : BackupWorld) (backup_dir target c : Text) (m : ℕ) (e : BackupError) (fs fs' : FileSystem)
    → backup_existing w backup_dir target fs ≡ (err e, fs')
    → lookup target fs ≡ some (file c m)
    → ((k : ℕ)
        → k < max_attempts
        → has_prefix target (attempt_path backup_dir w.stamp target k ++ slash ∷ []) ≡ false)
    → lookup target fs' ≡ lookup target fs
backup_existing_fails w backup_dir target c m e fs fs' done at apart =
    let found = stat_at target c m fs at in
    elim (Bool-cases w.makes_dir) [
      | inr no_dir ↦
          ap (λ g. lookup target g) (unstarted w backup_dir target c m e fs fs' done found no_dir)
      | inl makes ↦
          let claim =
            unique_path max_attempts 0 w.claims backup_dir w.stamp target (file [] 0o644) fs in
          let done' = backup_existing_started w backup_dir target c m e fs fs' done found makes in
          elim (Option-cases claim.0) [
            | inl unnamed ↦
                let gone = finish_unnamed w (file c m) target claim.0 e claim.1 fs' done' unnamed in
                let none_made =
                  unique_path_unclaimed max_attempts 0 w.claims backup_dir w.stamp target
                    (file [] 0o644) fs unnamed in
                ap (λ g. lookup target g) (gone ∙ none_made)
            | inr (path, named) ↦
                let (k, _, high, is_attempt, free, made, _) =
                  unique_path_first max_attempts 0 backup_dir w.stamp target path (file [] 0o644) fs
                    claim.1 (claim_lem w backup_dir target path fs named) in
                let other : eq_text path target ≡ false = other_lem path target c m fs free at in
                let there : lookup path claim.1 ≡ some (file [] 0o644) =
                  rw made (lookup-insert_self path (file [] 0o644) fs) in
                let apart' : has_prefix target (path ++ slash ∷ []) ≡ false =
                  rw is_attempt (apart k (omega arith)) in
                let kept : lookup target claim.1 ≡ lookup target fs =
                  rw made (kept_lem path target fs other) in
                finish_backup_failure w target path target c m e claim.0 claim.1 fs' done' named
                  there other apart'
                ∙ kept
          ]
    ]
  where
    other_lem :
        (path target c : Text) (m : ℕ) (fs : FileSystem)
        → lookup path fs ≡ none
        → lookup target fs ≡ some (file c m)
        → eq_text path target ≡ false
    other_lem path target c m fs free at = ground (arith, eq_text_iff path target)

    kept_lem :
        (path target : Text) (fs : FileSystem)
        → eq_text path target ≡ false
        → lookup target (insert path (file [] 0o644) fs) ≡ lookup target fs
    kept_lem path target fs other = ground (arith, lookup-insert target path (file [] 0o644) fs)
