-- ===== src/Git/Settings.antt =====
-- internal/gitmanager/config.go: the configuration of the git manager and its validation.
use dot_sync_manager.Base.{
  not, ◌&&◌, ◌||◌, if◌then◌else◌, Text, codes, is_empty, eq_text, ◌≡◌, arith, ◌↔◌,
}
use dot_sync_manager.Base.Paths.{is_abs}
use dot_sync_manager.Base.Result.{Result, ◌>>◌, ok, err, require, reject}

-- Config. `auth_type` is a string in the source as well.
pub record GitConfig : Type 0 where
  pub repo_path : Text
  pub remote_url : Text
  pub remote_name : Text
  pub author_name : Text
  pub author_email : Text
  pub auth_type : Text
  pub username : Text
  pub password : Text
  pub ssh_key_path : Text
  pub ssh_key_passphrase : Text
  pub known_hosts_path : Text

pub data GitConfigError : Type 0 where
  repo_path_required repo_path_relative author_required : GitConfigError
  https_incomplete ssh_key_required unknown_auth : GitConfigError

unfoldable pub normalize : GitConfig → GitConfig
normalize c = record c {
  remote_name =
      if not (is_empty c.remote_url) && is_empty c.remote_name
      then codes "origin"
      else c.remote_name;
}

-- validateReadOnly, on a pointer that is not nil
unfoldable pub validate_read_only : GitConfig → Result GitConfigError (Unit {0})
unfolding is_abs
validate_read_only c = do
  reject (is_empty c.repo_path) repo_path_required
  require (is_abs c.repo_path) repo_path_relative
  reject (is_empty c.author_name || is_empty c.author_email) author_required
  ok tt

-- The switch on the auth type.
unfoldable pub validate_auth : GitConfig → Result GitConfigError (Unit {0})
unfolding eq_text
validate_auth c =
    if eq_text c.auth_type (codes "none")
    then ok tt
    else if eq_text c.auth_type (codes "https")
    then reject (is_empty c.username || is_empty c.password) https_incomplete
    else if eq_text c.auth_type (codes "ssh")
    then reject (is_empty c.ssh_key_path) ssh_key_required
    else err unknown_auth

-- validate, on a pointer that is not nil
unfoldable pub validate : GitConfig → Result GitConfigError (Unit {0})
unfolding is_abs validate_auth
validate c = do
  reject (is_empty c.repo_path) repo_path_required
  require (is_abs c.repo_path) repo_path_relative
  reject (is_empty c.author_name || is_empty c.author_email) author_required
  validate_auth c

-- A configuration is valid exactly if it is valid for reading and its auth settings are complete.
pub validate_iff :
    (c : GitConfig)
    → (validate c ≡ ok tt) ↔ ((validate_read_only c ≡ ok tt) × (validate_auth c ≡ ok tt))
unfolding validate validate_read_only
validate_iff c = ground arith
