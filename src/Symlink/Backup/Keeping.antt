-- ===== src/Symlink/Backup/Keeping.antt =====
-- BackupExisting: the content that it keeps, and the permissions that it does not.
use mathlib.Core.Path.{subst}
use dot_sync_manager.Base.{
  ℕ, Option, none, some, true, false, ◌<◌, if◌then◌else◌, Text, eq_text, eq_text_iff, ◌≡◌, refl,
  arith, inl, inr, Bool-cases, [],
}
use dot_sync_manager.Base.Dict.{lookup, insert, lookup-insert, lookup-insert_self}
use dot_sync_manager.Base.Result.{ok}
use dot_sync_manager.Files.{file, FileSystem, fine, max_links, follow, stat, copy_file}
use dot_sync_manager.Files.Finding.{stat-follow, follow-insert_new, follow_file}
use dot_sync_manager.Files.Laws.{copy_file_opened, pour_fine, bytes_at_file, copy_file_success}
use dot_sync_manager.Symlink.Backup.{
  BackupWorld, max_attempts, unique_path, placeholder, copy_node, finish_backup, backup_existing,
}
use dot_sync_manager.Symlink.Backup.Claiming.{attempt_path, unique_path_first, unique_path_claims}

-- The copy of a file onto the placeholder of its backup, where everything works.
copied_onto :
    (target from path q c : Text) (m : ℕ) (fs : FileSystem)
    → follow max_links target fs ≡ some from
    → lookup from fs ≡ some (file c m)
    → lookup path fs ≡ none
    → let r = copy_file true fine target path (insert path (file [] 0o644) fs) in
      (r.0 ≡ true) × (lookup q r.1 ≡ (if eq_text path q then some (file c 0o644) else lookup q fs))
copied_onto target from path q c m fs leads at free =
    let claimed = insert path (file [] 0o644) fs in
    let apart : eq_text path from ≡ false = ground (arith, eq_text_iff path from) in
    let from' : lookup from claimed ≡ some (file c m) =
      ground (arith, lookup-insert from path (file [] 0o644) fs) in
    let path' : lookup path claimed ≡ some (file [] 0o644) =
      lookup-insert_self path (file [] 0o644) fs in
    let leads' =
      follow-insert_new max_links target path from (file [] 0o644) (file c m) fs free leads at in
    let opened =
      copy_file_opened fine target path from path c [] m 0o644 claimed leads'
        (follow_file path [] 0o644 claimed path') from' path' in
    let (works, holds) = pour_fine from path q 0o644 claimed in
    rw opened (
      works,
      ground (arith, bytes_at_file from c m claimed from', lookup-insert q path (file [] 0o644) fs),
    )

-- A second half that succeeds had a name and made a copy.
finish_backup_success :
    (w : BackupWorld) (target path c : Text) (m : ℕ) (claimed : Option Text) (fs fs' : FileSystem)
    → finish_backup w (file c m) target (claimed, fs) ≡ (ok path, fs')
    → (claimed ≡ some path)
      × ((copy_file w.opens w.copies target path fs).0 ≡ true)
      × (fs' ≡ (copy_file w.opens w.copies target path fs).1)
unfolding finish_backup copy_node
finish_backup_success w target path c m none fs fs' done = absurd (ground arith)
finish_backup_success w target path c m (some p) fs fs' done =
    elim (Bool-cases (copy_file w.opens w.copies target p fs).0) [
      | inr failed ↦ absurd (ground arith)
      | inl works ↦
          let same : p ≡ path = ground arith in
          (rw same refl, rw (← same) works, rw (← same) (ground arith))
    ]

backup_existing_success :
    (w : BackupWorld) (backup_dir target path c : Text) (m : ℕ) (fs fs' : FileSystem)
    → backup_existing w backup_dir target fs ≡ (ok path, fs')
    → stat target fs ≡ some (file c m)
    → finish_backup w
        (file c m)
        target
        (unique_path max_attempts 0 w.claims backup_dir w.stamp target (file [] 0o644) fs)
      ≡ (ok path, fs')
unfolding backup_existing placeholder
backup_existing_success w backup_dir target path c m fs fs' done found = ground arith

-- A name that is claimed, where the system makes files.
pub claim_lem :
    (w : BackupWorld) (backup_dir target path : Text) (fs : FileSystem)
    → (unique_path max_attempts 0 w.claims backup_dir w.stamp target (file [] 0o644) fs).0
      ≡ some path
    → ◌≡◌ {A = Option Text × FileSystem}
        (unique_path max_attempts 0 true backup_dir w.stamp target (file [] 0o644) fs)
        (
          some path,
          (unique_path max_attempts 0 w.claims backup_dir w.stamp target (file [] 0o644) fs).1,
        )
claim_lem w backup_dir target path fs named = elim (Bool-cases w.claims) [
  | inl claims ↦ ground arith
  | inr refused_name ↦ absurd (
      ground
        (arith, unique_path_claims max_attempts 0 backup_dir w.stamp target (file [] 0o644) fs))
]

-- The claim behind a backup that succeeds, and its copy.
backup_parts :
    (w : BackupWorld) (backup_dir target path c : Text) (m : ℕ) (fs fs' : FileSystem)
    → backup_existing w backup_dir target fs ≡ (ok path, fs')
    → stat target fs ≡ some (file c m)
    → ((k : ℕ) × (k < max_attempts) × (path ≡ attempt_path backup_dir w.stamp target k))
      × (lookup path fs ≡ none)
      × ((copy_file w.opens w.copies target path (insert path (file [] 0o644) fs)).0 ≡ true)
      × (fs' ≡ (copy_file w.opens w.copies target path (insert path (file [] 0o644) fs)).1)
backup_parts w backup_dir target path c m fs fs' done found =
    let claim = unique_path max_attempts 0 w.claims backup_dir w.stamp target (file [] 0o644) fs in
    let (named, works, e) =
      finish_backup_success w target path c m claim.0 claim.1 fs'
        (backup_existing_success w backup_dir target path c m fs fs' done found) in
    let claimed = claim_lem w backup_dir target path fs named in
    let (k, _, high, is_attempt, free, made, _) =
      unique_path_first max_attempts 0 backup_dir w.stamp target path (file [] 0o644) fs claim.1
        claimed in
    (
      (k, omega arith, is_attempt),
      free,
      subst (λ g. (copy_file w.opens w.copies target path g).0 ≡ true) made works,
      subst (λ g. fs' ≡ (copy_file w.opens w.copies target path g).1) made e,
    )

pub backup_existing_keeps :
    (w : BackupWorld) (backup_dir target path c q : Text) (m : ℕ) (fs fs' : FileSystem)
    → backup_existing w backup_dir target fs ≡ (ok path, fs')
    → stat target fs ≡ some (file c m)
    → (lookup path fs ≡ none)
      × (lookup q fs' ≡ (if eq_text path q then some (file c 0o644) else lookup q fs))
backup_existing_keeps w backup_dir target path c q m fs fs' done found =
    let (_, free, works, e) = backup_parts w backup_dir target path c m fs fs' done found in
    let (opens, copies) =
      copy_file_success w.opens w.copies target path (insert path (file [] 0o644) fs) works in
    let (from, leads, at) = stat-follow target fs (file c m) found in
    let (_, holds) = copied_onto target from path q c m fs leads at free in
    (free, rw (e, opens, copies) holds)

-- A backup that succeeds has the name of an attempt.
pub backup_existing_named :
    (w : BackupWorld) (backup_dir target path c : Text) (m : ℕ) (fs fs' : FileSystem)
    → backup_existing w backup_dir target fs ≡ (ok path, fs')
    → stat target fs ≡ some (file c m)
    → (k : ℕ) × (k < max_attempts) × (path ≡ attempt_path backup_dir w.stamp target k)
backup_existing_named w backup_dir target path c m fs fs' done found =
    (backup_parts w backup_dir target path c m fs fs' done found).0
