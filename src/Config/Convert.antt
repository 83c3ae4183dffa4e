-- ===== src/Config/Convert.antt =====
-- ToSyncConfig and ToGitManagerConfig of internal/config/sync_config.go, down to the debouncer and the git
-- manager that are built from a valid configuration. A time.Duration is an int64 that wraps around.
use dot_sync_manager.Base.{
  ℕ, ◌-◌, ◌*◌, ◌%◌, ◌^◌, ◌≤◌, ◌<◌, none, some, Bool, true, ltb, if◌then◌else◌, Text, codes, ◌≡◌,
  arith,
}
use dot_sync_manager.Base.Int.{ℤ, pos, negsuc, lebℤ, is_negative}
use dot_sync_manager.Base.Result.{ok}
use dot_sync_manager.Config.{GitSection, BackoffSettings, SyncConfig}
use dot_sync_manager.Config.Validation.{IsConfig}
use dot_sync_manager.Config.Valid.{is_abs-not_empty}
use dot_sync_manager.Debouncer.Backoff.{FloatOps, Config, second}
use dot_sync_manager.Git.Settings.{
  GitConfig, normalize, validate_read_only, validate_auth, validate,
}
use dot_sync_manager.Sync.Settings

abbrev pub int64_half : ℕ
int64_half = 2 ^ 63

-- The bit pattern of an int64, and the int64 of a bit pattern.
unfoldable pub to_bits : ℤ → ℕ
to_bits (pos n) = n % 2 ^ 64
to_bits (negsuc n) = 2 ^ 64 - 1 - n % 2 ^ 64

unfoldable pub of_bits : ℕ → ℤ
of_bits b = if ltb b int64_half then pos b else negsuc (2 ^ 64 - 1 - b)

-- time.Duration(n) * time.Second
unfoldable pub seconds : ℤ → ℤ
unfolding to_bits of_bits
seconds n = of_bits (to_bits n * second % 2 ^ 64)

module _ {Float : Type 0} where
  unfoldable pub to_backoff : ℤ → BackoffSettings Float → Config Float
  unfolding seconds
  to_backoff debounce_delay b = record {
    base_delay = debounce_delay;
    max_delay = seconds b.max_delay_seconds;
    backoff_enabled = b.enabled;
    backoff_multiplier = b.multiplier;
    churn_threshold = b.churn_threshold;
    churn_window = seconds b.churn_window_seconds;
    decay_reset_duration = seconds b.decay_reset_seconds;
    manual_sync_timeout =
        if lebℤ (pos 1) b.manual_sync_timeout_seconds
        then seconds b.manual_sync_timeout_seconds
        else pos (10 * second);
  }

  unfoldable pub to_sync_config : Text → Text → SyncConfig Float → Settings.SyncConfig Float
  unfolding to_backoff seconds
  to_sync_config version config_path c = record {
    repo_path = c.git.repo_path;
    debounce_delay = seconds c.sync.debounce_seconds;
    auto_sync_enabled = c.sync.auto_sync_enabled;
    ignore_file = codes ".syncignore";
    backoff = elim c.sync.backoff [
      | none ↦ none
      | some b ↦ some (to_backoff (seconds c.sync.debounce_seconds) b)
    ];
    version = version;
    config_path = config_path;
  }

unfoldable pub to_git_manager_config : GitSection → GitConfig
to_git_manager_config g = record {
  repo_path = g.repo_path;
  remote_url = g.remote_url;
  remote_name = g.remote_name;
  author_name = g.author_name;
  author_email = g.author_email;
  auth_type = g.auth_type;
  username = g.username;
  password = g.password;
  ssh_key_path = g.ssh_key_path;
  ssh_key_passphrase = g.ssh_key_passphrase;
  known_hosts_path = g.known_hosts_path;
}

seconds_large :
    (n : ℕ) → int64_half ≤ n * second → n * second < 2 ^ 64 → is_negative (seconds (pos n)) ≡ true
unfolding seconds
seconds_large n large below = ground arith

module _ {Float : Type 0} (ops : FloatOps Float) where
  -- The number of seconds is positive and its duration fits an int64.
  abbrev pub IsSmall : ℤ → Type 0
  IsSmall (pos n) = (1 ≤ n) × (n * second < int64_half)
  IsSmall (negsuc n) = ⊥

  -- A debounce delay of so many seconds that its duration does not fit becomes negative.
  pub to_sync_config-overflow :
      (n : ℕ) (version config_path : Text) (c : SyncConfig Float)
      → c.sync.debounce_seconds ≡ pos n
      → int64_half ≤ n * second
      → n * second < 2 ^ 64
      → is_negative (to_sync_config version config_path c).debounce_delay ≡ true
  unfolding to_sync_config
  to_sync_config-overflow n version config_path c e large below = rw e (seconds_large n large below)

  -- The git manager accepts what a valid configuration hands it for reading, and for writing exactly where
  -- the credentials of its auth type are complete; the sync service accepts it as well.
  valid_accepted :
      (parse_address : Text → Bool) (version config_path : Text) (c : SyncConfig Float)
      → IsConfig ops parse_address c
      → let g = normalize (to_git_manager_config c.git) in
        (validate_read_only g ≡ ok tt)
        × (validate g ≡ validate_auth g)
        × (Settings.validate (to_sync_config version config_path c) ≡ ok tt)
  unfolding normalize to_git_manager_config validate_read_only validate to_sync_config
      Settings.validate
  valid_accepted parse_address version config_path c v = ground (
    arith,
    v.git.repo_abs,
    v.git.author_name,
    v.git.author_email,
    is_abs-not_empty c.git.repo_path,
  )
