-- ===== src/Config/Codec.antt =====
-- The JSON forms of GitConfig and MachineConfig. encoding/json sets a pointer field exactly where the
-- object has the key, and leaves out an empty field that is tagged omitempty.
use dot_sync_manager.Base.{[], Option, none, some, Text, is_empty, if◌then◌else◌, ◌≡◌, refl, arith}
use dot_sync_manager.Config.{GitSection}

-- gitConfigJSONInput: the values of the keys that the object has.
pub record GitJson : Type 0 where
  pub repo_path : Option Text
  pub remote_url : Option Text
  pub remote : Option Text
  pub remote_name : Option Text
  pub branch : Option Text
  pub user_name : Option Text
  pub user_email : Option Text
  pub author_name : Option Text
  pub author_email : Option Text
  pub auth_type : Option Text
  pub username : Option Text
  pub password : Option Text
  pub ssh_key_path : Option Text
  pub ssh_key_passphrase : Option Text
  pub known_hosts_path : Option Text

unfoldable pub select_value : Option Text → Option Text → Option Text
select_value (some v) legacy = some v
select_value none legacy = legacy

-- assignIfPresent: the value of the target afterwards.
unfoldable pub assign_if_present : Option Text → Text → Text
assign_if_present none target = target
assign_if_present (some v) target = v

-- A key that is left out where its value is empty.
unfoldable pub omit_empty : Text → Option Text
omit_empty t = if is_empty t then none else some t

-- MarshalJSON of GitConfig
unfoldable pub marshal_git : GitSection → GitJson
unfolding omit_empty
marshal_git g = record {
  repo_path = some g.repo_path;
  remote_url = some g.remote_url;
  remote = omit_empty g.remote_name;
  remote_name = none;
  branch = some g.branch;
  user_name = omit_empty g.author_name;
  user_email = omit_empty g.author_email;
  author_name = none;
  author_email = none;
  auth_type = some g.auth_type;
  username = omit_empty g.username;
  password = omit_empty g.password;
  ssh_key_path = omit_empty g.ssh_key_path;
  ssh_key_passphrase = omit_empty g.ssh_key_passphrase;
  known_hosts_path = omit_empty g.known_hosts_path;
}

-- UnmarshalJSON of GitConfig, onto the values that the target holds.
unfoldable pub unmarshal_git : GitJson → GitSection → GitSection
unfolding select_value assign_if_present
unmarshal_git j g = record {
  repo_path = assign_if_present j.repo_path g.repo_path;
  remote_url = assign_if_present j.remote_url g.remote_url;
  branch = assign_if_present j.branch g.branch;
  auth_type = assign_if_present j.auth_type g.auth_type;
  username = assign_if_present j.username g.username;
  password = assign_if_present j.password g.password;
  ssh_key_path = assign_if_present j.ssh_key_path g.ssh_key_path;
  ssh_key_passphrase = assign_if_present j.ssh_key_passphrase g.ssh_key_passphrase;
  known_hosts_path = assign_if_present j.known_hosts_path g.known_hosts_path;
  remote_name = assign_if_present (select_value j.remote j.remote_name) g.remote_name;
  author_name = assign_if_present (select_value j.user_name j.author_name) g.author_name;
  author_email = assign_if_present (select_value j.user_email j.author_email) g.author_email;
}

-- A value for the machine in the file: a string, an object with its name if it has one, or other JSON.
pub data MachineJson : Type 0 where
  machine_string : Text → MachineJson
  machine_object : Option Text → MachineJson
  machine_other : MachineJson

-- UnmarshalJSON of MachineConfig. An object without a name leaves the empty name of the fresh struct.
unfoldable pub unmarshal_machine : MachineJson → Option Text
unmarshal_machine (machine_string name) = some name
unmarshal_machine (machine_object none) = some []
unmarshal_machine (machine_object (some name)) = some name
unmarshal_machine machine_other = none

unfoldable pub or_default : Text → Text → Text
or_default t fallback = if is_empty t then fallback else t

-- What is written and read back onto `d` is what was written, except that an empty value of a key that
-- is then left out is read back as the value that `d` holds.
pub unmarshal-marshal_git :
    (g d : GitSection)
    → unmarshal_git (marshal_git g) d ≡ record g {
      remote_name = or_default g.remote_name d.remote_name;
      author_name = or_default g.author_name d.author_name;
      author_email = or_default g.author_email d.author_email;
      username = or_default g.username d.username;
      password = or_default g.password d.password;
      ssh_key_path = or_default g.ssh_key_path d.ssh_key_path;
      ssh_key_passphrase = or_default g.ssh_key_passphrase d.ssh_key_passphrase;
      known_hosts_path = or_default g.known_hosts_path d.known_hosts_path;
    }
unfolding unmarshal_git marshal_git or_default
unmarshal-marshal_git g d = ground arith

or_default_same : (t : Text) → or_default t t ≡ t
unfolding or_default
or_default_same t = ground arith

unmarshal-marshal_git_same : (g : GitSection) → unmarshal_git (marshal_git g) g ≡ g
unmarshal-marshal_git_same g = rw (unmarshal-marshal_git g g) (
    rw
      (
        or_default_same g.remote_name,
        or_default_same g.author_name,
        or_default_same g.author_email,
        or_default_same g.username,
        or_default_same g.password,
        or_default_same g.ssh_key_path,
        or_default_same g.ssh_key_passphrase,
        or_default_same g.known_hosts_path,
      )
      refl)

select_value-none : (v : Option Text) → select_value v none ≡ v
unfolding select_value
select_value-none v = ground arith

-- An object is read like the one that holds only the new keys, each with its own value or else with the
-- value of its legacy key; and reading is stable under a further write and read.
pub unmarshal_git_legacy :
    (j : GitJson) (d : GitSection)
    → let modern = record j {
      remote = select_value j.remote j.remote_name;
      user_name = select_value j.user_name j.author_name;
      user_email = select_value j.user_email j.author_email;
      remote_name = none;
      author_name = none;
      author_email = none;
    } in
      (unmarshal_git modern d ≡ unmarshal_git j d)
      × (unmarshal_git (marshal_git (unmarshal_git j d)) (unmarshal_git j d) ≡ unmarshal_git j d)
unfolding unmarshal_git
unmarshal_git_legacy j d = (
  rw
      (
        select_value-none (select_value j.remote j.remote_name),
        select_value-none (select_value j.user_name j.author_name),
        select_value-none (select_value j.user_email j.author_email),
      )
      refl,
  unmarshal-marshal_git_same (unmarshal_git j d),
)
