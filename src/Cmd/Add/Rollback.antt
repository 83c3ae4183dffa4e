-- ===== src/Cmd/Add/Rollback.antt =====
-- The rollback of `dsm add` after the configuration could not be saved.
use dot_sync_manager.Base.{
  ℕ, suc, none, some, Bool, true, false, not, ◌&&◌, if◌then◌else◌, Text, eq_text, eq_text_iff,
  eq_text_refl, is_some, ◌≡◌, ◌∙◌, refl, arith,
}
use dot_sync_manager.Base.Dict.{lookup, erase, lookup-erase, lookup-erase_self}
use dot_sync_manager.Files.{
  file, link, FileSystem, fine, max_links, follow, copy_file, remove, link_path,
}
use dot_sync_manager.Files.Finding.{follow_file, follow_free}
use dot_sync_manager.Files.Laws.{
  copy_file_opened, copy_file_fresh, pour_fine, bytes_at_file, lookup-remove_others,
}
use dot_sync_manager.Cmd.Add.{AddWorld, rollback_after_config_failure}

-- A copy to a free name.
copied_fresh :
    (backup path q c : Text) (m : ℕ) (fs : FileSystem)
    → lookup backup fs ≡ some (file c m)
    → lookup path fs ≡ none
    → let r = copy_file true fine backup path fs in
      (r.0 ≡ true) × (lookup q r.1 ≡ (if eq_text path q then some (file c m) else lookup q fs))
copied_fresh backup path q c m fs at free =
    let opened =
      copy_file_fresh fine backup path backup path c m fs (follow_file backup c m fs at)
        (follow_free path fs free) at free in
    let (works, holds) = pour_fine backup path q m fs in
    rw opened (works, ground (arith, bytes_at_file backup c m fs at, eq_text_iff path backup))

-- A copy over a link fills the file behind the link.
copied_through :
    (backup path target q c d : Text) (m k : ℕ) (fs : FileSystem)
    → lookup backup fs ≡ some (file c m)
    → follow max_links path fs ≡ some target
    → lookup target fs ≡ some (file d k)
    → eq_text target backup ≡ false
    → let r = copy_file true fine backup path fs in
      (r.0 ≡ true) × (lookup q r.1 ≡ (if eq_text target q then some (file c k) else lookup q fs))
copied_through backup path target q c d m k fs at leads at' apart =
    let opened =
      copy_file_opened fine backup path backup target c d m k fs (follow_file backup c m fs at)
        leads at at' in
    let (works, holds) = pour_fine backup target q k fs in
    rw opened (works, ground (arith, bytes_at_file backup c m fs at))

-- What the rollback does once the backup was copied.
rollback_lem :
    (w : AddWorld) (path target backup : Text) (fs : FileSystem)
    → let copied =
        copy_file w.opens_backup w.copies_backup backup path (remove w.removes_link path fs).1 in
      let dropped = remove w.removes_backup backup copied.1 in
      copied.0 ≡ true
      → ◌≡◌ {A = Bool × Bool × FileSystem}
          (rollback_after_config_failure w path target backup true fs)
          (true, not dropped.0, (remove w.removes_copy target dropped.1).1)
unfolding rollback_after_config_failure
rollback_lem w path target backup fs works = rw (works, rollback_after_config_failure) refl

follow_step :
    (n : ℕ) (path t c : Text) (m : ℕ) (fs : FileSystem)
    → lookup path fs ≡ some (link t)
    → link_path path t ≡ t
    → lookup t fs ≡ some (file c m)
    → follow (suc (suc n)) path fs ≡ some t
unfolding follow
follow_step n path t c m fs leads aims at = ground arith

follow_link :
    (path target c : Text) (m : ℕ) (fs : FileSystem)
    → lookup path fs ≡ some (link target)
    → link_path path target ≡ target
    → lookup target fs ≡ some (file c m)
    → follow max_links path fs ≡ some target
follow_link path target c m fs leads aims at = follow_step 38 path target c m fs leads aims at

-- The rollback restores the content and the permissions of the backup, where the link can be removed and
-- the backup copied, and removes the copy in the repository if it can, where the path is neither the
-- backup's nor the copy's.
pub rollback_restores :
    (w : AddWorld) (path target backup c : Text) (m : ℕ) (fs : FileSystem)
    → lookup backup fs ≡ some (file c m)
    → eq_text path backup ≡ false
    → eq_text path target ≡ false
    → w.removes_link ≡ true
    → w.opens_backup ≡ true
    → w.copies_backup ≡ fine
    → let (restored, _, fs') = rollback_after_config_failure w path target backup true fs in
      (restored ≡ true)
      × (lookup path fs' ≡ some (file c m))
      × ((w.removes_copy && is_some (lookup target fs')) ≡ false)
unfolding remove
rollback_restores w path target backup c m fs at apart apart' unlinks opens copies =
    let unlinked = erase path fs in
    let at₁ : lookup backup unlinked ≡ some (file c m) =
      ground (arith, lookup-erase backup path fs) in
    let (works, holds) =
      copied_fresh backup path path c m unlinked at₁ (lookup-erase_self path fs) in
    let copied = copy_file true fine backup path unlinked in
    let there : lookup path copied.1 ≡ some (file c m) = rw (holds, eq_text_refl path) refl in
    let dropped = remove w.removes_backup backup copied.1 in
    let there₁ =
      lookup-remove_others w.removes_backup backup path copied.1
        (ground (arith, eq_text_iff backup path, eq_text_iff path backup))
      ∙ there in
    let there₂ =
      lookup-remove_others w.removes_copy target path dropped.1
        (ground (arith, eq_text_iff target path, eq_text_iff path target))
      ∙ there₁ in
    let result = rollback_lem w path target backup fs (rw (unlinks, opens, copies) works) in
    rw (result, unlinks, opens, copies)
      (refl, there₂, ground (arith, lookup-erase_self target dropped.1))

-- Where the link to the copy in the repository cannot be removed but every other call of the system works,
-- the rollback copies the backup through the link, reports the file as restored, and removes both the
-- backup and that copy: the link leads nowhere, and neither of the two has the content any more.
pub rollback_loses :
    (w : AddWorld) (path target backup c d : Text) (m k : ℕ) (fs : FileSystem)
    → lookup path fs ≡ some (link target)
    → link_path path target ≡ target
    → lookup target fs ≡ some (file d k)
    → lookup backup fs ≡ some (file c m)
    → eq_text target backup ≡ false
    → w.removes_link ≡ false
    → w.opens_backup ≡ true
    → w.copies_backup ≡ fine
    → w.removes_backup ≡ true
    → w.removes_copy ≡ true
    → let (restored, retained, fs') = rollback_after_config_failure w path target backup true fs in
      (restored ≡ true)
      × (retained ≡ false)
      × (lookup path fs' ≡ some (link target))
      × (lookup target fs' ≡ none)
      × (lookup backup fs' ≡ none)
unfolding remove
rollback_loses w path target backup c d m k fs leads aims at' saved apart stuck opens copies drops
      clears =
    let through : follow max_links path fs ≡ some target =
      follow_link path target d k fs leads aims at' in
    let (works, holds) =
      copied_through backup path target path c d m k fs saved through at' apart in
    let copied = copy_file true fine backup path fs in
    let result = rollback_lem w path target backup fs (rw (stuck, opens, copies) works) in
    let (_, holds') = copied_through backup path target backup c d m k fs saved through at' apart in
    let apart₁ : eq_text target path ≡ false = ground (arith, eq_text_iff target path) in
    let apart₂ : eq_text backup path ≡ false = ground (arith, eq_text_iff backup path) in
    let dropped = erase backup copied.1 in
    let still : lookup path copied.1 ≡ some (link target) = rw (holds, apart₁) leads in
    rw (result, stuck, opens, copies, drops, clears)
      (
        refl,
        rw (holds', apart, saved) refl,
        ground (arith, lookup-erase path backup copied.1, lookup-erase path target dropped),
        lookup-erase_self target dropped,
        ground (arith, lookup-erase backup target dropped, lookup-erase_self backup copied.1),
      )
