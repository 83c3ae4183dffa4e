-- ===== src/Tests/Pulling.antt =====
-- PullWithStash with one file that was changed here.
use dot_sync_manager.Base.{
  List, [], ◌∷◌, none, some, true, false, ◌≡◌, ◌⊎◌, refl, arith, Text, codes, eq_text,
}
use dot_sync_manager.Base.Dict.{Dict, lookup, insert}
use dot_sync_manager.Base.Sort.{sort}
use dot_sync_manager.Git.Commit.{FileStatus, GitStatus, unmodified, other, is_changed}
use dot_sync_manager.Git.Stash.{File, Artifacts, StashFile, apply_stash}
use dot_sync_manager.Git.Stash.Kept.{content_of, local_of}
use dot_sync_manager.Git.Pull.{
  PullCalls, conflicts_left, create_stash, pull_with_stash, restore_stash,
}
use dot_sync_manager.Git.Pull.Keeping.{pull_keeps}

abbrev plain_file : Text → File
plain_file content = record { content = content; mode = 0o644; is_link = false }

abbrev edited : FileStatus
edited = record { worktree = other; staging = unmodified }

abbrev edits : GitStatus
edits = (codes "vimrc", edited) ∷ []

abbrev base_files : Dict File
base_files = (codes "vimrc", plain_file (codes "old")) ∷ []

abbrev own_files : Dict File
own_files = (codes "vimrc", plain_file (codes "here")) ∷ []

abbrev their_files : Dict File
their_files = (codes "vimrc", plain_file (codes "there")) ∷ []

abbrev calls : PullCalls
calls = record {
  ctx_done = false;
  worktree_ok = true;
  status = some edits;
  dirs_ok = true;
  copy_fails = λ path. false;
  through = λ path. none;
  metadata_ok = true;
  reset = some base_files;
  pull = some their_files;
}

abbrev both_versions : Dict Artifacts
both_versions =
    (
      codes "vimrc",
      record { remote = codes "there"; base = some (codes "old"); local = codes "here" },
    )
    ∷ []

pull_keeps_example :
    (content_of (lookup (codes "vimrc") their_files) ≡ some (codes "here"))
    ⊎ (local_of (lookup (codes "vimrc") both_versions) ≡ some (codes "here"))
unfolding pull_with_stash create_stash restore_stash apply_stash lookup insert eq_text is_changed
    sort
pull_keeps_example =
    pull_keeps calls base_files own_files their_files their_files edits both_versions
      (some (conflicts_left (codes "vimrc" ∷ []))) (codes "vimrc") edited
      (plain_file (codes "here")) refl (tt, tt) refl refl refl refl refl refl
      (λ f e. ground arith, tt) refl

abbrev offline : PullCalls
offline = record calls { pull = none }

abbrev stashed : List StashFile
stashed =
    (record {
      path = codes "vimrc";
      mode = 0o644;
      deleted = false;
      had_base = true;
      local = some (codes "here");
      base = some (codes "old");
    })
    ∷ []
