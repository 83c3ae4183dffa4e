-- ===== src/Cmd/Remove/Losing.antt =====
-- What becomes of the content when `dsm remove` takes a link away.
use dot_sync_manager.Base.{
  [], ◌++◌, Option, none, some, true, false, if◌then◌else◌, Text, eq_text, eq_text_iff,
  eq_text_refl, ℕ, ◌≡◌, arith, inl, inr, Bool-cases, Option-cases, has_prefix-append,
}
use dot_sync_manager.Base.Dict.{Dict, lookup, erase, lookup-insert, lookup-erase, lookup-erase_self}
use dot_sync_manager.Base.Paths.{is_abs}
use dot_sync_manager.Base.Result.{ok}
use dot_sync_manager.Files.{file, dir, link, FileSystem, fine, max_links, follow, copy_file, remove}
use dot_sync_manager.Files.Finding.{follow_file, read_file_at}
use dot_sync_manager.Files.Laws.{copy_file_opened, pour_fine}
use dot_sync_manager.Ignore.{rel_path}
use dot_sync_manager.Cmd.Remove.{
  RemoveWorld, restore_original_file, execute_removal, find_tracked_file, run_remove,
  reverse_lookup, chmod, read_link,
}

-- Every call works.
abbrev pub smooth : RemoveWorld
smooth = record {
  opens = true;
  copies = fine;
  chmods = true;
  removes_link = true;
  removes_file = true;
  saves = true;
}

-- chmod changes permissions only.
chmod_file :
    (p r c : Text) (m m' : ℕ) (fs : FileSystem)
    → lookup r fs ≡ some (file c m)
    → (m'' : ℕ) × (lookup r (chmod p m' fs) ≡ some (file c m''))
unfolding chmod
chmod_file p r c m m' fs at = elim (Option-cases (follow max_links p fs)) [
  | inl lost ↦ (m, ground arith)
  | inr (q, leads) ↦ elim (Option-cases (lookup q fs)) [
    | inl nothing ↦ (m, ground arith)
    | inr (file d k, e) ↦ elim (Bool-cases (eq_text q r)) [
      | inl same ↦ (m', ground (arith, lookup-insert r q (file d m') fs, eq_text_iff q r))
      | inr other ↦ (m, ground (arith, lookup-insert r q (file d m') fs))
    ]
    | inr (dir k, e) ↦ (m, ground (arith, lookup-insert r q (dir m') fs, eq_text_iff q r))
    | inr (link t, e) ↦ (m, ground arith)
  ]
]

chmod_link :
    (p r t : Text) (m' : ℕ) (fs : FileSystem)
    → lookup r fs ≡ some (link t)
    → lookup r (chmod p m' fs) ≡ some (link t)
unfolding chmod
chmod_link p r t m' fs at = elim (Option-cases (follow max_links p fs)) [
  | inl lost ↦ ground arith
  | inr (q, leads) ↦ elim (Option-cases (lookup q fs)) [
    | inl nothing ↦ ground arith
    | inr (file d k, e) ↦ ground (arith, lookup-insert r q (file d m') fs, eq_text_iff q r)
    | inr (dir k, e) ↦ ground (arith, lookup-insert r q (dir m') fs, eq_text_iff q r)
    | inr (link u, e) ↦ ground arith
  ]
]

-- The copy back through the link that `dsm add` made empties the file that it is to copy.
restore_empties :
    (path tracked t c : Text) (m : ℕ) (q : Text) (fs : FileSystem)
    → lookup path fs ≡ some (link t)
    → follow max_links path fs ≡ some tracked
    → lookup tracked fs ≡ some (file c m)
    → let r = copy_file true fine tracked path fs in
      (r.0 ≡ true) × (lookup q r.1 ≡ (if eq_text tracked q then some (file [] m) else lookup q fs))
restore_empties path tracked t c m q fs linked leads at =
    let opened =
      copy_file_opened fine tracked path tracked tracked c c m m fs (follow_file tracked c m fs at)
        leads at at in
    rw opened (
      let (works, holds) = pour_fine tracked tracked q m fs in
      (works, ground (arith, eq_text_refl tracked)))

restored_lem :
    (tracked path c : Text) (m : ℕ) (fs : FileSystem)
    → lookup tracked fs ≡ some (file c m)
    → (copy_file true fine tracked path fs).0 ≡ true
    → restore_original_file smooth tracked path fs
      ≡ (true, chmod path m (copy_file true fine tracked path fs).1)
unfolding restore_original_file
restored_lem tracked path c m fs at works = ground (arith, read_file_at tracked c m fs at)

-- `dsm remove` without --delete-all of a link that leads to the tracked file, where every call of the
-- system works, succeeds and leaves nothing at the link's path and an empty file in the repository:
-- neither path has the content any more.
pub execute_removal_empties :
    (path tracked t c : Text) (m : ℕ) (fs : FileSystem)
    → lookup path fs ≡ some (link t)
    → follow max_links path fs ≡ some tracked
    → lookup tracked fs ≡ some (file c m)
    → let r = execute_removal smooth false path tracked fs in
      (r.0 ≡ none)
      × (lookup path r.1 ≡ none)
      × ((m' : ℕ) × (lookup tracked r.1 ≡ some (file [] m')))
unfolding execute_removal remove
execute_removal_empties path tracked t c m fs linked leads at =
    let copied = copy_file true fine tracked path fs in
    let (works, _) = restore_empties path tracked t c m path fs linked leads at in
    let apart : eq_text tracked path ≡ false = ground (arith, eq_text_iff tracked path) in
    let (_, emptied) = restore_empties path tracked t c m tracked fs linked leads at in
    let (_, still) = restore_empties path tracked t c m path fs linked leads at in
    let empty : lookup tracked copied.1 ≡ some (file [] m) = ground (arith, eq_text_refl tracked) in
    let there : lookup path copied.1 ≡ some (link t) = ground arith in
    let (m', at') = chmod_file path tracked [] m m copied.1 empty in
    let link' = chmod_link path path t m copied.1 there in
    let restored : restore_original_file smooth tracked path fs ≡ (true, chmod path m copied.1) =
      restored_lem tracked path c m fs at works in
    rw restored (
      ground arith,
      ground (arith, lookup-erase path path (chmod path m copied.1), eq_text_refl path),
      (
        m',
        ground (arith, lookup-erase tracked path (chmod path m copied.1), eq_text_iff path tracked),
      ),
    )

found_outside :
    (abs : Text → Option Text) (repo path root rest : Text) (mappings : Dict Text) (fs : FileSystem)
    → abs path ≡ some path
    → abs repo ≡ some root
    → is_abs (root ++ rest) ≡ true
    → reverse_lookup abs path mappings none ≡ none
    → lookup path fs ≡ some (link (root ++ rest))
    → find_tracked_file abs mappings repo path fs
      ≡ ok (some (rel_path root (root ++ rest), root ++ rest))
unfolding find_tracked_file read_link
found_outside abs repo path root rest mappings fs p r abs_target unmapped linked =
    ground (arith, has_prefix-append root rest)

-- A link that is in no mapping and leads to a path that only begins like the repository's, such as a file
-- of a directory next to it, counts as tracked: with --delete-all that file is removed, where the calls of
-- the system work and all the paths are absolute.
pub run_remove_outside :
    (abs : Text → Option Text) (w : RemoveWorld) (repo path root rest : Text) (mappings : Dict Text)
    (fs : FileSystem)
    → abs path ≡ some path
    → abs repo ≡ some root
    → is_abs (root ++ rest) ≡ true
    → reverse_lookup abs path mappings none ≡ none
    → lookup path fs ≡ some (link (root ++ rest))
    → w.removes_link ≡ true
    → w.removes_file ≡ true
    → lookup (root ++ rest) (run_remove abs w true repo path mappings fs).1 ≡ none
unfolding run_remove execute_removal remove
run_remove_outside abs w repo path root rest mappings fs p r abs_target unmapped linked unlinks
      deletes =
    let found = found_outside abs repo path root rest mappings fs p r abs_target unmapped linked in
    ground (arith, lookup-erase_self (root ++ rest) (erase path fs))
