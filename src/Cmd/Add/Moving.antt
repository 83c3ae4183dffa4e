-- ===== src/Cmd/Add/Moving.antt =====
-- What `dsm add` leaves behind when it succeeds.
use dot_sync_manager.Base.{
  ℕ, none, some, Bool, true, false, Text, eq_text, eq_text_iff, ◌≡◌, ap, arith, inl, inr,
  Option-cases,
}
use dot_sync_manager.Base.Dict.{lookup, insert, lookup-insert, lookup-insert_self, lookup-erase}
use dot_sync_manager.Base.Paths.{is_abs, join_path}
use dot_sync_manager.Base.Result.{ok, Result-cases}
use dot_sync_manager.Files.{file, link, FileSystem, create_exclusive, remove}
use dot_sync_manager.Files.Finding.{read_file_at, stat_at}
use dot_sync_manager.Ignore.{rel_path}
use dot_sync_manager.Symlink.{create_link, mapping_state, valid}
use dot_sync_manager.Symlink.Links.{create_link_success, create_link_valid}
use dot_sync_manager.Symlink.Backup.{backup_existing}
use dot_sync_manager.Symlink.Backup.Keeping.{backup_existing_keeps}
use dot_sync_manager.Symlink.Mappings.{Mapped, add_mapping}
use dot_sync_manager.Cmd.Add.{
  AddWorld, link_or_restore, move_file, execute_add_transaction, update_and_save_config, run_add,
}
use dot_sync_manager.Cmd.Add.Keeping.{execute_add_backed, execute_add_unbacked}

link_or_restore_success :
    (w : AddWorld) (repo path target backup : Text) (fs : FileSystem)
    → (link_or_restore w repo path target backup fs).error ≡ none
    → create_link w.links repo (rel_path repo target) path fs
      ≡ (none, (link_or_restore w repo path target backup fs).files)
unfolding link_or_restore
link_or_restore_success w repo path target backup fs done =
    let linked = create_link w.links repo (rel_path repo target) path fs in
    elim (Option-cases linked.0) [
      | inl works ↦ ground arith
      | inr (e, fails) ↦ absurd (ground arith)
    ]

-- The steps of a move that succeeds.
move_file_success :
    (w : AddWorld) (repo path target backup c : Text) (m : ℕ) (fs : FileSystem)
    → lookup path fs ≡ some (file c m)
    → (move_file w repo path target backup fs).error ≡ none
    → let copied = create_exclusive w.creates target c 0o644 fs in
      let moved = remove w.removes_original path copied.1 in
      (copied.0 ≡ true)
      × (moved.0 ≡ true)
      × (create_link w.links repo (rel_path repo target) path moved.1
          ≡ (none, (move_file w repo path target backup fs).files))
unfolding move_file
move_file_success w repo path target backup c m fs at done =
    let copied = create_exclusive w.creates target c 0o644 fs in
    let moved = remove w.removes_original path copied.1 in
    let linked = link_or_restore_success w repo path target backup moved.1 in
    let reads = read_file_at path c m fs at in (ground arith, ground arith, ground arith)

create_exclusive_free :
    (works : Bool) (target c : Text) (mode : ℕ) (fs : FileSystem)
    → (create_exclusive works target c mode fs).0 ≡ true
    → (lookup target fs ≡ none)
      × ((create_exclusive works target c mode fs).1 ≡ insert target (file c mode) fs)
unfolding create_exclusive
create_exclusive_free works target c mode fs created = (ground arith, ground arith)

kept_lem :
    (works : Bool) (path target c dest : Text) (mode : ℕ) (fs : FileSystem)
    → eq_text path target ≡ false
    → lookup target (insert path (link dest) (remove works path (insert target (file c mode) fs)).1)
      ≡ some (file c mode)
unfolding remove
kept_lem works path target c dest mode fs apart = ground (
  arith,
  lookup-insert target path (link dest) (remove works path (insert target (file c mode) fs)).1,
  lookup-erase target path (insert target (file c mode) fs),
  lookup-insert_self target (file c mode) fs,
)

-- The files after a move that succeeds.
move_file_places :
    (w : AddWorld) (repo path target backup c : Text) (m : ℕ) (fs : FileSystem)
    → lookup path fs ≡ some (file c m)
    → is_abs repo ≡ true
    → (move_file w repo path target backup fs).error ≡ none
    → let fs' = (move_file w repo path target backup fs).files in
      (lookup target fs ≡ none)
      × (lookup target fs' ≡ some (file c 0o644))
      × (lookup path fs' ≡ some (link (join_path repo (rel_path repo target))))
      × (mapping_state repo (rel_path repo target) path fs' ≡ valid)
move_file_places w repo path target backup c m fs at rooted done =
    let copied = create_exclusive w.creates target c 0o644 fs in
    let moved = remove w.removes_original path copied.1 in
    let fs' = (move_file w repo path target backup fs).files in
    let dest = join_path repo (rel_path repo target) in
    let (created, removed, linked) = move_file_success w repo path target backup c m fs at done in
    let (_, _, made) =
      create_link_success w.links repo (rel_path repo target) path moved.1 fs' linked in
    let (free, copy) = create_exclusive_free w.creates target c 0o644 fs created in
    let apart : eq_text path target ≡ false = ground (arith, eq_text_iff path target) in
    (
      free,
      rw (made, copy) (kept_lem w.removes_original path target c dest 0o644 fs apart),
      rw made (lookup-insert_self path (link dest) moved.1),
      create_link_valid w.links repo (rel_path repo target) path moved.1 fs' rooted linked,
    )

-- The parts of `dsm add` that succeeds.
run_add_parts :
    (w : AddWorld) (repo backup_dir path target : Text) (m : Mapped) (fs : FileSystem)
    → (run_add w repo backup_dir path target m fs).0 ≡ none
    → let added = execute_add_transaction w repo backup_dir path target fs in
      (added.error ≡ none)
      × (add_mapping w.saves repo (rel_path repo target) path m
          ≡ (none, (run_add w repo backup_dir path target m fs).1))
      × ((run_add w repo backup_dir path target m fs).2 ≡ added.files)
unfolding run_add update_and_save_config
run_add_parts w repo backup_dir path target m fs done =
    let added = execute_add_transaction w repo backup_dir path target fs in
    elim (Option-cases added.error) [
      | inr (e, fails) ↦ absurd (ground arith)
      | inl works ↦ elim (Option-cases (add_mapping w.saves repo (rel_path repo target) path m).0) [
        | inr (e, fails) ↦ absurd (ground arith)
        | inl maps ↦ (works, ground arith, ground arith)
      ]
    ]

add_mapping_success :
    (saves : Bool) (repo source path : Text) (m m' : Mapped)
    → add_mapping saves repo source path m ≡ (none, m')
    → (lookup source m'.mappings ≡ some path) × (m'.saved ≡ m'.mappings)
unfolding add_mapping
add_mapping_success saves repo source path m m' done =
    (ground (arith, lookup-insert_self source path m.mappings), ground arith)

-- After `dsm add` of a file into an absolute repository succeeds, its place in the repository holds its
-- content, with mode 0644 whatever its own was; its path is a link to that place, which VerifyMappings
-- finds valid; and the mapping is in memory and in the file.
pub run_add_places :
    (w : AddWorld) (repo backup_dir path target c : Text) (mode : ℕ) (m : Mapped) (fs : FileSystem)
    → lookup path fs ≡ some (file c mode)
    → is_abs repo ≡ true
    → (run_add w repo backup_dir path target m fs).0 ≡ none
    → let source = rel_path repo target in
      let (_, m', fs') = run_add w repo backup_dir path target m fs in
      (lookup target fs' ≡ some (file c 0o644))
      × (lookup path fs' ≡ some (link (join_path repo source)))
      × (mapping_state repo source path fs' ≡ valid)
      × (lookup source m'.mappings ≡ some path)
      × (m'.saved ≡ m'.mappings)
run_add_places w repo backup_dir path target c mode m fs at rooted done =
    let saved = backup_existing w.backs_up backup_dir path fs in
    let (works, maps, files) = run_add_parts w repo backup_dir path target m fs done in
    let (found, stored) =
      add_mapping_success w.saves repo (rel_path repo target) path m
        (run_add w repo backup_dir path target m fs).1 maps in
    elim (Result-cases saved.0) [
      | inr (e, fails) ↦
          let (_, failed) = execute_add_unbacked w repo backup_dir path target e fs fails in
          absurd (ground arith)
      | inl (backup, backs) ↦
          let done' : saved ≡ (ok backup, saved.1) = ap (λ r. (r, saved.1)) backs in
          let (free, holds) =
            backup_existing_keeps w.backs_up backup_dir path backup c path mode fs saved.1 done'
              (stat_at path c mode fs at) in
          let moves = execute_add_backed w repo backup_dir path target backup fs backs in
          let apart : eq_text backup path ≡ false = ground (arith, eq_text_iff backup path) in
          let (_, there, linked, state) =
            move_file_places w repo path target backup c mode saved.1 (rw (holds, apart) at) rooted
              (rw (← moves) works) in
          (
            rw (files, moves) there,
            rw (files, moves) linked,
            rw (files, moves) state,
            found,
            stored,
          )
    ]
