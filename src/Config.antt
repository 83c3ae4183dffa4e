-- ===== src/Config.antt =====
-- internal/config/sync_config.go: the configuration of the whole program, less what only JSON tags say.
pub mod Codec
pub mod Expanding
pub mod Loading
pub mod Validation
pub mod Valid
pub mod Convert
use dot_sync_manager.Base.{[], Option, some, Bool, true, false, Text, codes}
use dot_sync_manager.Base.Int.{ℤ, pos}
use dot_sync_manager.Base.Dict.{Dict}
use dot_sync_manager.Base.Paths.{join_path}

-- GitConfig
pub record GitSection : Type 0 where
  pub repo_path : Text
  pub remote_url : Text
  pub remote_name : Text
  pub branch : Text
  pub author_name : Text
  pub author_email : Text
  pub auth_type : Text
  pub username : Text
  pub password : Text
  pub ssh_key_path : Text
  pub ssh_key_passphrase : Text
  pub known_hosts_path : Text

-- BackoffSettings
pub record BackoffSettings (Float : Type 0) : Type 0 where
  pub enabled : Bool
  pub max_delay_seconds : ℤ
  pub multiplier : Float
  pub churn_threshold : ℤ
  pub churn_window_seconds : ℤ
  pub decay_reset_seconds : ℤ
  pub manual_sync_timeout_seconds : ℤ

-- SyncSettings
pub record SyncSettings (Float : Type 0) : Type 0 where
  pub auto_sync_enabled : Bool
  pub pull_interval_seconds : ℤ
  pub debounce_seconds : ℤ
  pub auto_commit : Bool
  pub auto_push : Bool
  pub auto_pull : Bool
  pub backoff : Option (BackoffSettings Float)

-- NotificationConfig
pub record NotificationConfig : Type 0 where
  pub enabled : Bool
  pub show_success : Bool
  pub show_pulls : Bool
  pub play_sound_on_conflict : Bool

-- ConflictConfig
pub record ConflictConfig : Type 0 where
  pub strategy : Text
  pub backup_dir : Text
  pub keep_backups_days : ℤ

-- UIConfig
pub record UiConfig : Type 0 where
  pub start_at_boot : Bool
  pub minimize_to_tray : Bool
  pub theme : Text

-- AdvancedConfig
pub record AdvancedConfig : Type 0 where
  pub debug_logging : Bool
  pub log_file : Text
  pub max_log_size_mb : ℤ

-- SyncConfig. `machine` is the Name of MachineConfig.
pub record SyncConfig (Float : Type 0) : Type 0 where
  pub version : Text
  pub machine : Text
  pub git : GitSection
  pub sync : SyncSettings Float
  pub notifications : NotificationConfig
  pub conflict_resolution : ConflictConfig
  pub mappings : Dict Text
  pub ui : UiConfig
  pub advanced : AdvancedConfig
  pub config_path : Text

-- What DefaultConfig asks the system for: the home directory, the machine's name, git's user.
pub record Machine (Float : Type 0) : Type 0 where
  pub home : Text
  pub machine_name : Text
  pub user_name : Text
  pub user_email : Text
  pub two : Float

-- DefaultConfig, where the home directory is known.
unfoldable pub default_config : {Float : Type 0} → Machine Float → SyncConfig Float
unfolding join_path
default_config m = record {
  version = codes "1.0";
  machine = m.machine_name;
  git = record {
    repo_path = join_path m.home (codes "dotfiles");
    remote_url = [];
    remote_name = codes "origin";
    branch = codes "main";
    author_name = m.user_name;
    author_email = m.user_email;
    auth_type = codes "ssh";
    username = [];
    password = [];
    ssh_key_path = [];
    ssh_key_passphrase = [];
    known_hosts_path = [];
  };
  sync = record {
    auto_sync_enabled = true;
    pull_interval_seconds = pos 300;
    debounce_seconds = pos 30;
    auto_commit = true;
    auto_push = true;
    auto_pull = true;
    backoff = some (record {
      enabled = true;
      max_delay_seconds = pos 300;
      multiplier = m.two;
      churn_threshold = pos 10;
      churn_window_seconds = pos 60;
      decay_reset_seconds = pos 300;
      manual_sync_timeout_seconds = pos 10;
    });
  };
  notifications = record {
    enabled = true;
    show_success = false;
    show_pulls = true;
    play_sound_on_conflict = false;
  };
  conflict_resolution = record {
    strategy = codes "manual";
    backup_dir = join_path (join_path m.home (codes "dotfiles")) (codes ".backup");
    keep_backups_days = pos 7;
  };
  mappings = [];
  ui = record { start_at_boot = true; minimize_to_tray = true; theme = codes "auto" };
  advanced = record {
    debug_logging = false;
    log_file = join_path m.home (codes ".dotfile-sync.log");
    max_log_size_mb = pos 10;
  };
  config_path = [];
}
