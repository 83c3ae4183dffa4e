-- ===== src/Symlink/Backup/Claiming.antt =====
-- generateUniqueBackupPath: the name that it claims.
use mathlib.Core.Path.{subst}
use dot_sync_manager.Base.{
  Bool-cases, ℕ, zero, suc, ◌+◌, ◌≤◌, ◌<◌, none, some, Bool, true, false, Text, ◌≡◌, ◌≢◌, refl, sym,
  arith, inl, inr, Option-cases, ◌==◌,
}
use dot_sync_manager.Base.Dict.{lookup, insert}
use dot_sync_manager.Base.Paths.{join_path}
use dot_sync_manager.Files.{Node, FileSystem}
use dot_sync_manager.Symlink.Backup.{backup_name, unique_path}

-- The name of an attempt.
abbrev pub attempt_path : Text → Text → Text → ℕ → Text
attempt_path backup_dir stamp target k = join_path backup_dir (backup_name stamp k target)

-- A name that is taken, and all from the next one on.
taken_from :
    (attempt j : ℕ) (backup_dir stamp target : Text) (old : Node) (fs : FileSystem)
    → lookup (attempt_path backup_dir stamp target attempt) fs ≡ some old
    → attempt ≤ j
    → (suc attempt ≤ j → lookup (attempt_path backup_dir stamp target j) fs ≢ none)
    → lookup (attempt_path backup_dir stamp target j) fs ≢ none
taken_from attempt j backup_dir stamp target old fs taken low later =
    elim (Bool-cases (attempt == j)) [
      | inl same ↦
          let e : attempt ≡ j = ground arith in
          subst (λ n. lookup (attempt_path backup_dir stamp target n) fs ≢ none) e (ground arith)
      | inr other ↦ later (ground arith)
    ]

-- The name that is claimed is that of the first attempt whose name is free; it was free and holds the
-- placeholder, and nothing else changed.
pub unique_path_first :
    (left attempt : ℕ) (backup_dir stamp target path : Text) (node : Node) (fs fs' : FileSystem)
    → unique_path left attempt true backup_dir stamp target node fs ≡ (some path, fs')
    → (k : ℕ) × (attempt ≤ k)
      × (k < attempt + left)
      × (path ≡ attempt_path backup_dir stamp target k)
      × (lookup path fs ≡ none)
      × (fs' ≡ insert path node fs)
      × ((j : ℕ) → attempt ≤ j → j < k → lookup (attempt_path backup_dir stamp target j) fs ≢ none)
unfolding unique_path
unique_path_first zero attempt backup_dir stamp target path node fs fs' done = absurd (ground arith)
unique_path_first (suc left) attempt backup_dir stamp target path node fs fs' done =
    elim (Option-cases (lookup (attempt_path backup_dir stamp target attempt) fs)) [
      | inl free ↦
          let same : attempt_path backup_dir stamp target attempt ≡ path = ground arith in
          (
            attempt,
            omega arith,
            omega arith,
            sym same,
            rw (← same) free,
            rw (← same) (ground arith),
            λ j low high. absurd (omega arith),
          )
      | inr (old, taken) ↦
          let (k, low, high, e, free, made, before) =
            unique_path_first left (suc attempt) backup_dir stamp target path node fs fs'
              (ground arith) in
          (
            k,
            omega arith,
            omega arith,
            e,
            free,
            made,
            λ j lo hi.
                taken_from attempt j backup_dir stamp target old fs taken lo
                  (λ next. before j next hi),
          )
    ]

-- No name is found only if the names of all attempts are taken, and then nothing changed.
pub unique_path_exhausted :
    (left attempt : ℕ) (backup_dir stamp target : Text) (node : Node) (fs fs' : FileSystem)
    → unique_path left attempt true backup_dir stamp target node fs ≡ (none, fs')
    → (fs' ≡ fs)
      × ((j : ℕ)
          → attempt ≤ j
          → j < attempt + left
          → lookup (attempt_path backup_dir stamp target j) fs ≢ none)
unfolding unique_path
unique_path_exhausted zero attempt backup_dir stamp target node fs fs' done =
    (ground arith, λ j low high. absurd (omega arith))
unique_path_exhausted (suc left) attempt backup_dir stamp target node fs fs' done =
    elim (Option-cases (lookup (attempt_path backup_dir stamp target attempt) fs)) [
      | inl free ↦ absurd (ground arith)
      | inr (old, taken) ↦
          let (same, before) =
            unique_path_exhausted left (suc attempt) backup_dir stamp target node fs fs'
              (ground arith) in
          (
            same,
            λ j lo hi.
                taken_from attempt j backup_dir stamp target old fs taken lo
                  (λ next. before j next (omega arith)),
          )
    ]

pub unique_path_claims :
    (left attempt : ℕ) (backup_dir stamp target : Text) (node : Node) (fs : FileSystem)
    → (unique_path left attempt false backup_dir stamp target node fs).0 ≡ none
unfolding unique_path
unique_path_claims zero attempt backup_dir stamp target node fs = refl
unique_path_claims (suc left) attempt backup_dir stamp target node fs =
    ground (arith, unique_path_claims left (suc attempt) backup_dir stamp target node fs)

-- Where no name is claimed nothing changes.
pub unique_path_unclaimed :
    (left attempt : ℕ) (claims : Bool) (backup_dir stamp target : Text) (node : Node)
    (fs : FileSystem)
    → (unique_path left attempt claims backup_dir stamp target node fs).0 ≡ none
    → (unique_path left attempt claims backup_dir stamp target node fs).1 ≡ fs
unfolding unique_path
unique_path_unclaimed zero attempt claims backup_dir stamp target node fs e = refl
unique_path_unclaimed (suc left) attempt claims backup_dir stamp target node fs e =
    ground (arith, unique_path_unclaimed left (suc attempt) claims backup_dir stamp target node fs)
