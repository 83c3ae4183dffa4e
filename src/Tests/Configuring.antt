-- ===== src/Tests/Configuring.antt =====
-- internal/config on small inputs: the default configuration of a machine.
use dot_sync_manager.Base.{
  ℕ, [], some, Bool, true, false, ◌≡◌, refl, Text, codes, arith, ◌↔◌, leb, ltb, has_prefix,
}
use dot_sync_manager.Base.Int.{pos}
use dot_sync_manager.Base.Paths.{is_abs}
use dot_sync_manager.Base.Result.{ok}
use dot_sync_manager.Debouncer.Backoff.{FloatOps}
use dot_sync_manager.Config.{SyncConfig, BackoffSettings, Machine, default_config}
use dot_sync_manager.Config.Codec.{marshal_git, unmarshal_git, or_default, unmarshal-marshal_git}
use dot_sync_manager.Config.Expanding.{Directories, IsRooted, expand_paths}
use dot_sync_manager.Config.Loading.{
  Stat, present, missing, LoadWorld, is_missing, load_from_file, load_from_file_valid,
  find_config_file,
}
use dot_sync_manager.Config.Valid.{validate_iff}
use dot_sync_manager.Config.Validation.{validate, IsConfig}

abbrev whole : FloatOps ℕ
whole = record {
  le_one = λ f. leb f 1;
  gt_one = λ f. ltb 1 f;
  two = 2;
  backoff = λ base f count. pos base;
}

abbrev any_address : Text → Bool
any_address _ = true

abbrev machine : Machine ℕ
machine = record {
  home = codes "/h";
  machine_name = codes "m";
  user_name = codes "Ann";
  user_email = codes "a@b";
  two = 2;
}

abbrev config : SyncConfig ℕ
config = default_config machine

abbrev backoff : BackoffSettings ℕ
backoff = record {
  enabled = true;
  max_delay_seconds = pos 300;
  multiplier = 2;
  churn_threshold = pos 10;
  churn_window_seconds = pos 60;
  decay_reset_seconds = pos 300;
  manual_sync_timeout_seconds = pos 10;
}

validate_iff_example :
    (validate whole any_address config ≡ ok tt) ↔ IsConfig whole any_address config
validate_iff_example = validate_iff whole any_address config

unmarshal-marshal_git_example :
    unmarshal_git (marshal_git config.git) config.git ≡ record config.git {
      remote_name = or_default config.git.remote_name config.git.remote_name;
      author_name = or_default config.git.author_name config.git.author_name;
      author_email = or_default config.git.author_email config.git.author_email;
      username = or_default config.git.username config.git.username;
      password = or_default config.git.password config.git.password;
      ssh_key_path = or_default config.git.ssh_key_path config.git.ssh_key_path;
      ssh_key_passphrase = or_default config.git.ssh_key_passphrase config.git.ssh_key_passphrase;
      known_hosts_path = or_default config.git.known_hosts_path config.git.known_hosts_path;
    }
unmarshal-marshal_git_example = unmarshal-marshal_git config.git config.git

abbrev directories : Directories
directories = record { home = some (codes "/h"); cwd = some (codes "/w") }

directories-IsRooted : IsRooted directories
unfolding is_abs has_prefix
directories-IsRooted = record { home_abs = λ h e. ground arith; cwd_abs = λ w e. ground arith }

config_expands : expand_paths directories config ≡ ok config
unfolding expand_paths default_config
config_expands = refl

-- A file that decodes to the default configuration.
abbrev world : LoadWorld ℕ
world = record {
  abs_path = some (codes "/c");
  stat = present;
  read_ok = true;
  decode = λ c. some config;
}

config_loads : load_from_file whole any_address directories world (some config) ≡ ok config
unfolding load_from_file validate expand_paths default_config
config_loads = refl

load_from_file_valid_example :
    IsConfig whole any_address config
    × ((start parsed : SyncConfig ℕ) × (world.decode start ≡ some parsed)
        × (expand_paths directories parsed ≡ ok config))
unfolding is_missing
load_from_file_valid_example =
    load_from_file_valid whole any_address directories world config config refl config_loads

abbrev nothing : Text
nothing = []

abbrev no_files : Text → Stat
no_files _ = missing

nothing_found :
    find_config_file directories no_files [] ≡ ok (codes "/h/dotfiles/.sync-config.json", false)
unfolding find_config_file
nothing_found = refl
