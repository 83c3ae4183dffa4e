-- ===== src/Config/Loading.antt =====
-- LoadFromFile, SaveToFile and FindConfigFile of internal/config/sync_config.go. What the file system and
-- encoding/json answer is an argument.
use dot_sync_manager.Base.{
  [], ◌∷◌, Option, none, some, Bool, true, false, if◌then◌else◌, Text, codes, is_empty, ◌≡◌, ◌≢◌,
  arith, ◌⊎◌, inl, inr, Option-cases,
}
use dot_sync_manager.Base.Paths.{join_path}
use dot_sync_manager.Base.Result.{Result, ◌>>=◌, ◌>>◌, ok, err, require, split_bind, ok-inj}
use dot_sync_manager.Config.{SyncConfig}
use dot_sync_manager.Config.Expanding.{Directories, PathError, expand_path, expand_paths}
use dot_sync_manager.Config.Validation.{ConfigError, validate, IsConfig}
use dot_sync_manager.Config.Valid.{validate_iff}
use dot_sync_manager.Debouncer.Backoff.{FloatOps}

-- os.Stat: the file is there, os.IsNotExist of the error, or another error.
pub data Stat : Type 0 where
  present missing inaccessible : Stat

pub data FileError : Type 0 where
  home_failed abs_failed read_failed parse_failed stat_failed : FileError
  mkdir_failed marshal_failed write_failed : FileError
  paths_failed : PathError → FileError
  invalid : ConfigError → FileError

-- An error of another kind, wrapped.
abbrev pub wrap {ℓ} : {E : Type 0} {A : Type ℓ} → (E → FileError) → Result E A → Result FileError A
wrap f (ok a) = ok a
wrap f (err e) = err (f e)

-- What LoadFromFile finds: `decode` is json.Unmarshal of the file onto a configuration.
pub record LoadWorld (Float : Type 0) : Type 0 where
  pub abs_path : Option Text
  pub stat : Stat
  pub read_ok : Bool
  pub decode : SyncConfig Float → Option (SyncConfig Float)

unfoldable pub required : {A : Type 0} → Option A → FileError → Result FileError A
required none e = err e
required (some a) e = ok a

unfoldable pub is_missing : Stat → Bool
is_missing missing = true
is_missing _ = false

module _ {Float : Type 0} (ops : FloatOps Float) (parse_address : Text → Bool) where
  -- LoadFromFile from os.ReadFile on.
  unfoldable pub read_config :
      Directories → LoadWorld Float → SyncConfig Float → Result FileError (SyncConfig Float)
  unfolding required expand_paths validate
  read_config d w start = do
    require w.read_ok read_failed
    parsed ← required (w.decode start) parse_failed
    expanded ← wrap paths_failed (expand_paths d parsed)
    wrap invalid (validate ops parse_address expanded)
    ok expanded

  -- LoadFromFile; `defaults` is what DefaultConfig answers.
  unfoldable pub load_from_file :
      Directories
      → LoadWorld Float
      → Option (SyncConfig Float)
      → Result FileError (SyncConfig Float)
  unfolding required is_missing read_config
  load_from_file d w defaults = do
    fresh ← required defaults home_failed
    path ← required w.abs_path abs_failed
    if is_missing w.stat
        then ok (record fresh { config_path = path })
        else read_config d w (record fresh { config_path = path })

  -- SaveToFile: the configuration that is written, which is also what the receiver becomes.
  unfoldable pub save_to_file :
      Directories → Bool → Bool → Bool → SyncConfig Float → Result FileError (SyncConfig Float)
  unfolding expand_paths validate
  save_to_file d mkdir_ok marshal_ok write_ok c = do
    expanded ← wrap paths_failed (expand_paths d c)
    wrap invalid (validate ops parse_address expanded)
    require mkdir_ok mkdir_failed
    require marshal_ok marshal_failed
    require write_ok write_failed
    ok expanded

  wrap-ok :
      {E : Type 0} {A : Type 0} (f : E → FileError) (r : Result E A) (a : A)
      → wrap f r ≡ ok a
      → r ≡ ok a
  wrap-ok f (ok b) a h = ground arith
  wrap-ok f (err e) a h = absurd (ground arith)

  read_config_valid :
      (d : Directories) (w : LoadWorld Float) (start c : SyncConfig Float)
      → read_config d w start ≡ ok c
      → IsConfig ops parse_address c
        × ((parsed : SyncConfig Float) × (w.decode start ≡ some parsed)
            × (expand_paths d parsed ≡ ok c))
  unfolding read_config required
  read_config_valid d w start c done =
      let (_, _, r₁) = split_bind (require w.read_ok read_failed) _ c done in
      let (parsed, e₂, r₂) = split_bind (required (w.decode start) parse_failed) _ c r₁ in
      let (expanded, e₃, r₃) = split_bind (wrap paths_failed (expand_paths d parsed)) _ c r₂ in
      let (_, e₄, r₄) = split_bind (wrap invalid (validate ops parse_address expanded)) _ c r₃ in
      rw (← ok-inj _ c r₄) (
        (validate_iff ops parse_address expanded).0 (wrap-ok invalid _ tt e₄),
        (parsed, ground arith, wrap-ok paths_failed _ expanded e₃),
      )

  -- A configuration that is loaded from a file that is not missing is valid, and it is the expansion of
  -- what the file decodes to.
  pub load_from_file_valid :
      (d : Directories) (w : LoadWorld Float) (fresh c : SyncConfig Float)
      → is_missing w.stat ≡ false
      → load_from_file d w (some fresh) ≡ ok c
      → IsConfig ops parse_address c
        × ((start parsed : SyncConfig Float) × (w.decode start ≡ some parsed)
            × (expand_paths d parsed ≡ ok c))
  unfolding load_from_file required
  load_from_file_valid d w fresh c there done = elim (Option-cases w.abs_path) [
    | inl lost ↦ absurd (ground arith)
    | inr (path, e) ↦
        let start : SyncConfig Float = record fresh { config_path = path } in
        let (valid, (parsed, decoded, expanded)) = read_config_valid d w start c (ground arith) in
        (valid, (start, parsed, decoded, expanded))
  ]

  -- Only a valid configuration is ever written.
  pub save_to_file_valid :
      (d : Directories) (mkdir_ok marshal_ok write_ok : Bool) (c written : SyncConfig Float)
      → save_to_file d mkdir_ok marshal_ok write_ok c ≡ ok written
      → IsConfig ops parse_address written × (expand_paths d c ≡ ok written)
  unfolding save_to_file
  save_to_file_valid d mkdir_ok marshal_ok write_ok c written done =
      let (expanded, e₁, r₁) = split_bind (wrap paths_failed (expand_paths d c)) _ written done in
      let (_, e₂, r₂) =
        split_bind (wrap invalid (validate ops parse_address expanded)) _ written r₁ in
      let (_, _, r₃) = split_bind (require mkdir_ok mkdir_failed) _ written r₂ in
      let (_, _, r₄) = split_bind (require marshal_ok marshal_failed) _ written r₃ in
      let (_, _, r₅) = split_bind (require write_ok write_failed) _ written r₄ in
      rw (← ok-inj _ written r₅) (
        (validate_iff ops parse_address expanded).0 (wrap-ok invalid _ tt e₂),
        wrap-ok paths_failed _ expanded e₁,
      )

-- FindConfigFile where no path is given. The home directory is known.
unfoldable pub find_default : Text → (Text → Stat) → Result FileError (Text × Bool)
unfolding join_path
find_default home stat =
    let prd = join_path (join_path home (codes "dotfiles")) (codes ".sync-config.json") in
    let legacy = join_path home (codes ".dotfile-sync.json") in
    elim (stat prd) [
      | present ↦ ok (prd, true)
      | inaccessible ↦ err stat_failed
      | missing ↦ elim (stat legacy) [
        | present ↦ ok (legacy, true)
        | inaccessible ↦ err stat_failed
        | missing ↦ ok (prd, false)
      ]
    ]

unfoldable pub find_explicit : Directories → (Text → Stat) → Text → Result FileError (Text × Bool)
unfolding expand_path
find_explicit d stat explicit = do
  path ← wrap paths_failed (expand_path d explicit)
  elim (stat path) [
    | present ↦ ok (path, true)
    | inaccessible ↦ err stat_failed
    | missing ↦ ok (path, false)
  ]

-- FindConfigFile; `stat` is what os.Stat says of a path.
unfoldable pub find_config_file :
    Directories → (Text → Stat) → Text → Result FileError (Text × Bool)
unfolding required find_default find_explicit
find_config_file d stat explicit = do
  home ← required d.home home_failed
  if is_empty explicit then find_default home stat else find_explicit d stat explicit

find_default_lem :
    (home path : Text) (stat : Text → Stat) (found : Bool)
    → find_default home stat ≡ ok (path, found)
    → let prd = join_path (join_path home (codes "dotfiles")) (codes ".sync-config.json") in
      (stat path ≡ (if found then present else missing))
      × ((path ≡ prd)
          ⊎ ((path ≡ join_path home (codes ".dotfile-sync.json"))
              × (stat prd ≡ missing)
              × (found ≡ true)))
unfolding find_default
find_default_lem home path stat found done =
    let prd = join_path (join_path home (codes "dotfiles")) (codes ".sync-config.json") in
    let legacy = join_path home (codes ".dotfile-sync.json") in ground arith

find_explicit_lem :
    (d : Directories) (explicit path : Text) (stat : Text → Stat) (found : Bool)
    → find_explicit d stat explicit ≡ ok (path, found)
    → (stat path ≡ (if found then present else missing)) × (expand_path d explicit ≡ ok path)
unfolding find_explicit
find_explicit_lem d explicit path stat found done = ground arith

-- The file that FindConfigFile names with `true` is there and with `false` it is missing; an explicit path
-- wins, and the legacy file is named only where it is there and the new one is missing.
find_config_file_outcome :
    (d : Directories) (stat : Text → Stat) (explicit path home : Text) (found : Bool)
    → d.home ≡ some home
    → find_config_file d stat explicit ≡ ok (path, found)
    → let prd = join_path (join_path home (codes "dotfiles")) (codes ".sync-config.json") in
      (stat path ≡ (if found then present else missing))
      × (((explicit ≢ []) × (expand_path d explicit ≡ ok path))
          ⊎ ((explicit ≡ []) × (path ≡ prd))
          ⊎ ((explicit ≡ [])
              × (path ≡ join_path home (codes ".dotfile-sync.json"))
              × (stat prd ≡ missing)
              × (found ≡ true)))
unfolding find_config_file required
find_config_file_outcome d stat [] path home found at done =
    ground (arith, find_default_lem home path stat found)
find_config_file_outcome d stat (b ∷ explicit) path home found at done =
    ground (arith, find_explicit_lem d (b ∷ explicit) path stat found)
