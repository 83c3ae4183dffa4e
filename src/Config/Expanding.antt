-- ===== src/Config/Expanding.antt =====
-- util.ExpandPath (internal/util/path.go) and expandPaths of internal/config/sync_config.go.
use dot_sync_manager.Base.{
  ℕ, [], ◌∷◌, Option, none, some, Bool, true, false, ◌&&◌, ◌||◌, ◌==◌, Text, codes, is_empty,
  eq_text, if◌then◌else◌, ◌≡◌, arith, ◌⊎◌, All, drop, Bool-cases, Option-cases, inl, inr,
}
use dot_sync_manager.Base.Dict.{Dict}
use dot_sync_manager.Base.Paths.{slash, is_abs, join_path, is_abs-join_path}
use dot_sync_manager.Base.Result.{Result, ◌>>=◌, Result-cases, split_bind, ok-inj, ok, err}
use dot_sync_manager.Config.{SyncConfig}

-- What os.UserHomeDir and os.Getwd answer.
pub record Directories : Type 0 where
  pub home : Option Text
  pub cwd : Option Text

pub data PathError : Type 0 where
  no_home no_cwd : PathError

abbrev pub is_separator : ℕ → Bool
is_separator b = b == slash || b == b'\\'

-- strings.TrimLeft(p, "/\\")
unfoldable pub trim_separators : Text → Text
trim_separators [] = []
trim_separators (b ∷ p) = let rest = trim_separators p in if is_separator b then rest else b ∷ p

-- A tilde followed by a separator.
unfoldable pub is_home_relative : Text → Bool
is_home_relative [] = false
is_home_relative (a ∷ []) = false
is_home_relative (a ∷ b ∷ p) = a == b'~' && is_separator b

unfoldable pub or_error : Option Text → PathError → Result PathError Text
or_error none e = err e
or_error (some t) e = ok t

unfoldable pub expand_path : Directories → Text → Result PathError Text
unfolding trim_separators is_home_relative or_error eq_text is_abs join_path
expand_path d path =
    let remainder = trim_separators (drop 1 path) in
    if eq_text path (codes "~")
    then or_error d.home no_home
    else if is_home_relative path
    then (do
      home ← or_error d.home no_home
      ok (if is_empty remainder then home else join_path home remainder))
    else if is_abs path
    then ok path
    else (do cwd ← or_error d.cwd no_cwd; ok (join_path cwd path))

-- The helper that skips an empty field.
unfoldable pub expand_field : Directories → Text → Result PathError Text
unfolding expand_path
expand_field d path = if is_empty path then ok [] else expand_path d path

-- The loop over the mappings, which skips empty targets.
unfoldable pub expand_mappings : Directories → Dict Text → Result PathError (Dict Text)
unfolding expand_field
expand_mappings d [] = ok []
expand_mappings d ((source, target) ∷ rest) =
    let more = expand_mappings d rest in
    do expanded ← expand_field d target; others ← more; ok ((source, expanded) ∷ others)

unfoldable pub expand_paths :
    {Float : Type 0} → Directories → SyncConfig Float → Result PathError (SyncConfig Float)
unfolding expand_field expand_mappings
expand_paths d c = do
  repo ← expand_field d c.git.repo_path
  key ← expand_field d c.git.ssh_key_path
  hosts ← expand_field d c.git.known_hosts_path
  backups ← expand_field d c.conflict_resolution.backup_dir
  log ← expand_field d c.advanced.log_file
  targets ← expand_mappings d c.mappings
  ok (record c {
    git = record c.git { repo_path = repo; ssh_key_path = key; known_hosts_path = hosts };
    conflict_resolution = record c.conflict_resolution { backup_dir = backups };
    advanced = record c.advanced { log_file = log };
    mappings = targets;
  })

-- The directories of the process are absolute.
pub record IsRooted (d : Directories) : Type 0 where
  pub home_abs : (h : Text) → d.home ≡ some h → is_abs h ≡ true
  pub cwd_abs : (w : Text) → d.cwd ≡ some w → is_abs w ≡ true

-- An expanded path is absolute.
pub expand_path-abs :
    (d : Directories) (path r : Text) → IsRooted d → expand_path d path ≡ ok r → is_abs r ≡ true
unfolding expand_path or_error
expand_path-abs d path r v done = elim (Option-cases d.home) [
  | inl lost ↦ elim (Option-cases d.cwd) [
    | inl lost' ↦ ground arith
    | inr (w, at) ↦ ground (arith, v.cwd_abs w at, is_abs-join_path w path)
  ]
  | inr (h, at) ↦
      let remainder = trim_separators (drop 1 path) in
      elim (Option-cases d.cwd) [
        | inl lost ↦ ground (arith, v.home_abs h at, is_abs-join_path h remainder)
        | inr (w, at') ↦ ground (
          arith,
          v.home_abs h at,
          is_abs-join_path h remainder,
          v.cwd_abs w at',
          is_abs-join_path w path,
        )
      ]
]

-- A path of the configuration once it is expanded: empty, or absolute.
abbrev pub IsExpanded : Text → Type 0
IsExpanded t = (t ≡ []) ⊎ (is_abs t ≡ true)

expand_field-IsExpanded :
    (d : Directories) (path r : Text) → IsRooted d → expand_field d path ≡ ok r → IsExpanded r
unfolding expand_field
expand_field-IsExpanded d path r v done = elim (Bool-cases (is_empty path)) [
  | inl nothing ↦ inl (ground arith)
  | inr something ↦ inr (expand_path-abs d path r v (ground arith))
]

expand_mappings-IsExpanded :
    (d : Directories) (m r : Dict Text)
    → IsRooted d
    → expand_mappings d m ≡ ok r
    → All (λ (source, target). IsExpanded target) r
unfolding expand_mappings
expand_mappings-IsExpanded d [] r v done = let e : r ≡ [] = ground arith in rw e tt
expand_mappings-IsExpanded d ((source, target) ∷ m) r v done =
    elim (Result-cases (expand_field d target)) [
      | inr (bad, e) ↦ absurd (ground arith)
      | inl (expanded, e) ↦ elim (Result-cases (expand_mappings d m)) [
        | inr (bad, e') ↦ absurd (ground arith)
        | inl (others, e') ↦
            let split : r ≡ (source, expanded) ∷ others = ground arith in
            rw split (
              expand_field-IsExpanded d target expanded v e,
              expand_mappings-IsExpanded d m others v e',
            )
      ]
    ]

-- In a configuration whose paths were expanded without an error, the repository, the key file, the known
-- hosts, the backup directory, the log file and every target of a mapping is empty or absolute.
expand_paths-IsExpanded :
    {Float : Type 0} (d : Directories) (c r : SyncConfig Float)
    → IsRooted d
    → expand_paths d c ≡ ok r
    → IsExpanded r.git.repo_path
      × IsExpanded r.git.ssh_key_path
      × IsExpanded r.git.known_hosts_path
      × IsExpanded r.conflict_resolution.backup_dir
      × IsExpanded r.advanced.log_file
      × All (λ (source, target). IsExpanded target) r.mappings
unfolding expand_paths
expand_paths-IsExpanded d c r v done =
    let (repo, e₁, r₁) = split_bind (expand_field d c.git.repo_path) _ r done in
    let (key, e₂, r₂) = split_bind (expand_field d c.git.ssh_key_path) _ r r₁ in
    let (hosts, e₃, r₃) = split_bind (expand_field d c.git.known_hosts_path) _ r r₂ in
    let (backups, e₄, r₄) = split_bind (expand_field d c.conflict_resolution.backup_dir) _ r r₃ in
    let (log, e₅, r₅) = split_bind (expand_field d c.advanced.log_file) _ r r₄ in
    let (targets, e₆, r₆) = split_bind (expand_mappings d c.mappings) _ r r₅ in
    rw (← ok-inj _ r r₆) (
      expand_field-IsExpanded d c.git.repo_path repo v e₁,
      expand_field-IsExpanded d c.git.ssh_key_path key v e₂,
      expand_field-IsExpanded d c.git.known_hosts_path hosts v e₃,
      expand_field-IsExpanded d c.conflict_resolution.backup_dir backups v e₄,
      expand_field-IsExpanded d c.advanced.log_file log v e₅,
      expand_mappings-IsExpanded d c.mappings targets v e₆,
    )
