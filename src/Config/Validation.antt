-- ===== src/Config/Validation.antt =====
-- Validate of internal/config/sync_config.go, one part per section of the configuration in the order of
-- the code, and what a valid configuration is. `parse_address` stands for mail.ParseAddress succeeding.
use dot_sync_manager.Base.{
  [], ◌∷◌, Option, none, some, Bool, true, false, ◌||◌, if◌then◌else◌, Text, codes, is_empty,
  eq_text, ◌≡◌, ◌≢◌, ◌⊎◌, All,
}
use dot_sync_manager.Base.Dict.{Dict}
use dot_sync_manager.Base.Int.{ℤ, pos, lebℤ, ◌≤ℤ◌}
use dot_sync_manager.Base.Paths.{is_abs}
use dot_sync_manager.Base.Result.{Result, ◌>>◌, ok, require, reject}
use dot_sync_manager.Config.{
  GitSection, BackoffSettings, SyncSettings, ConflictConfig, UiConfig, AdvancedConfig, SyncConfig,
}
use dot_sync_manager.Debouncer.Backoff.{FloatOps}

pub data ConfigError : Type 0 where
  version_required machine_required repo_path_required repo_path_relative : ConfigError
  author_required bad_email : ConfigError
  pull_not_positive pull_too_short debounce_not_positive debounce_too_long : ConfigError
  strategy_required bad_strategy backups_negative backups_too_long : ConfigError
  theme_required bad_theme log_size_not_positive log_size_too_large : ConfigError
  mapping_source_empty mapping_target_empty mapping_target_relative : ConfigError
  max_delay_not_positive max_delay_too_short bad_multiplier churn_threshold_not_positive :
      ConfigError
  churn_window_not_positive decay_not_positive manual_timeout_negative : ConfigError

-- What Validate returns where there is nothing to complain about.
abbrev pub Check : Type 0
Check = Result ConfigError (Unit {0})

unfoldable pub validate_theme : Text → Check
unfolding eq_text
validate_theme t =
    require (eq_text t (codes "auto") || eq_text t (codes "light") || eq_text t (codes "dark"))
      bad_theme

unfoldable pub is_strategy : Text → Bool
unfolding eq_text
is_strategy t =
    eq_text t (codes "manual")
    || eq_text t (codes "auto_keep_local")
    || eq_text t (codes "auto_keep_remote")

unfoldable pub validate_git : (Text → Bool) → GitSection → Check
unfolding is_abs
validate_git parse_address g = do
  reject (is_empty g.repo_path) repo_path_required
  require (is_abs g.repo_path) repo_path_relative
  reject (is_empty g.author_name || is_empty g.author_email) author_required
  require (parse_address g.author_email) bad_email
  ok tt

unfoldable pub validate_sync : {Float : Type 0} → SyncSettings Float → Check
validate_sync s = do
  reject (lebℤ s.pull_interval_seconds (pos 0)) pull_not_positive
  require (lebℤ (pos 60) s.pull_interval_seconds) pull_too_short
  reject (lebℤ s.debounce_seconds (pos 0)) debounce_not_positive
  require (lebℤ s.debounce_seconds s.pull_interval_seconds) debounce_too_long
  ok tt

unfoldable pub validate_conflict : ConflictConfig → Check
unfolding is_strategy
validate_conflict c = do
  reject (is_empty c.strategy) strategy_required
  require (is_strategy c.strategy) bad_strategy
  require (lebℤ (pos 0) c.keep_backups_days) backups_negative
  require (lebℤ c.keep_backups_days (pos 365)) backups_too_long
  ok tt

unfoldable pub validate_ui : UiConfig → Check
unfolding validate_theme
validate_ui u = do reject (is_empty u.theme) theme_required; validate_theme u.theme

unfoldable pub validate_advanced : AdvancedConfig → Check
validate_advanced a = do
  reject (lebℤ a.max_log_size_mb (pos 0)) log_size_not_positive
  require (lebℤ a.max_log_size_mb (pos 1000)) log_size_too_large
  ok tt

-- The loop over the mappings, in some order of the map.
unfoldable pub validate_mappings : Dict Text → Check
unfolding is_abs
validate_mappings [] = ok tt
validate_mappings ((source, target) ∷ rest) =
    let more = validate_mappings rest in
    do
      reject (is_empty source) mapping_source_empty
      reject (is_empty target) mapping_target_empty
      require (is_abs target) mapping_target_relative
      more

module _ {Float : Type 0} (ops : FloatOps Float) where
  unfoldable pub validate_enabled_backoff : ℤ → BackoffSettings Float → Check
  validate_enabled_backoff debounce b = do
    reject (lebℤ b.max_delay_seconds (pos 0)) max_delay_not_positive
    require (lebℤ debounce b.max_delay_seconds) max_delay_too_short
    reject (ops.le_one b.multiplier) bad_multiplier
    reject (lebℤ b.churn_threshold (pos 0)) churn_threshold_not_positive
    reject (lebℤ b.churn_window_seconds (pos 0)) churn_window_not_positive
    reject (lebℤ b.decay_reset_seconds (pos 0)) decay_not_positive
    ok tt

  unfoldable pub validate_backoff : ℤ → Option (BackoffSettings Float) → Check
  unfolding validate_enabled_backoff
  validate_backoff debounce none = ok tt
  validate_backoff debounce (some b) = do
    if b.enabled then validate_enabled_backoff debounce b else ok tt
    require (lebℤ (pos 0) b.manual_sync_timeout_seconds) manual_timeout_negative
    ok tt

  unfoldable pub validate : (Text → Bool) → SyncConfig Float → Check
  unfolding validate_git validate_sync validate_conflict validate_ui validate_advanced
      validate_mappings validate_backoff
  validate parse_address c = do
    reject (is_empty c.version) version_required
    reject (is_empty c.machine) machine_required
    validate_git parse_address c.git
    validate_sync c.sync
    validate_conflict c.conflict_resolution
    validate_ui c.ui
    validate_advanced c.advanced
    validate_mappings c.mappings
    validate_backoff c.sync.debounce_seconds c.sync.backoff

-- Sections that are valid.
pub record IsGit (parse_address : Text → Bool) (g : GitSection) : Type 0 where
  pub repo_abs : is_abs g.repo_path ≡ true
  pub author_name : g.author_name ≢ []
  pub author_email : g.author_email ≢ []
  pub email : parse_address g.author_email ≡ true

pub record IsSync {Float : Type 0} (s : SyncSettings Float) : Type 0 where
  pub pull : pos 60 ≤ℤ s.pull_interval_seconds
  pub debounce : pos 1 ≤ℤ s.debounce_seconds
  pub debounce_below : s.debounce_seconds ≤ℤ s.pull_interval_seconds

pub record IsConflict (c : ConflictConfig) : Type 0 where
  pub strategy :
      (c.strategy ≡ codes "manual")
      ⊎ (c.strategy ≡ codes "auto_keep_local")
      ⊎ (c.strategy ≡ codes "auto_keep_remote")
  pub days : pos 0 ≤ℤ c.keep_backups_days
  pub days_below : c.keep_backups_days ≤ℤ pos 365

abbrev pub IsTheme : Text → Type 0
IsTheme t = (t ≡ codes "auto") ⊎ (t ≡ codes "light") ⊎ (t ≡ codes "dark")

abbrev pub IsMapping : Text × Text → Type 0
IsMapping (source, target) = (source ≢ []) × (is_abs target ≡ true)

module _ {Float : Type 0} (ops : FloatOps Float) where
  pub record IsBackoff (debounce : ℤ) (b : BackoffSettings Float) : Type 0 where
    pub max_delay : pos 1 ≤ℤ b.max_delay_seconds
    pub max_delay_above : debounce ≤ℤ b.max_delay_seconds
    pub multiplier : ops.le_one b.multiplier ≡ false
    pub churn_threshold : pos 1 ≤ℤ b.churn_threshold
    pub churn_window : pos 1 ≤ℤ b.churn_window_seconds
    pub decay : pos 1 ≤ℤ b.decay_reset_seconds

  abbrev pub IsBackoffOption : ℤ → Option (BackoffSettings Float) → Type 0
  IsBackoffOption debounce none = Unit
  IsBackoffOption debounce (some b) =
      (b.enabled ≡ true → IsBackoff debounce b) × (pos 0 ≤ℤ b.manual_sync_timeout_seconds)

  pub record IsConfig (parse_address : Text → Bool) (c : SyncConfig Float) : Type 0 where
    pub version : c.version ≢ []
    pub machine : c.machine ≢ []
    pub git : IsGit parse_address c.git
    pub sync : IsSync c.sync
    pub conflict : IsConflict c.conflict_resolution
    pub theme : IsTheme c.ui.theme
    pub log_size : pos 1 ≤ℤ c.advanced.max_log_size_mb
    pub log_size_below : c.advanced.max_log_size_mb ≤ℤ pos 1000
    pub mappings : All IsMapping c.mappings
    pub backoff : IsBackoffOption c.sync.debounce_seconds c.sync.backoff
