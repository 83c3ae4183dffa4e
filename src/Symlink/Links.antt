-- ===== src/Symlink/Links.antt =====
-- CreateLink, RemoveLink and VerifyMappings together.
use dot_sync_manager.Base.{
  none, Bool, true, false, Text, eq_text_refl, is_some, ◌∙◌, ◌≡◌, refl, arith, inl, inr,
  Option-cases,
}
use dot_sync_manager.Base.Dict.{lookup, insert, lookup-insert, lookup-insert_self, erase-insert_new}
use dot_sync_manager.Base.Paths.{is_abs, dir_name, join_path, is_abs-join_path}
use dot_sync_manager.Files.{Node, link, FileSystem, max_links, stat, lstat, make_link, remove}
use dot_sync_manager.Files.Finding.{stat-follow, follow-insert_new}
use dot_sync_manager.Symlink.{link_outcome, create_link, remove_link, mapping_state, valid}

link_outcome_success :
    (has_source has_parent has_target made : Bool) (g fs fs' : FileSystem)
    → link_outcome has_source has_parent has_target (made, g) fs ≡ (none, fs')
    → (has_source ≡ true) × (has_parent ≡ true) × (has_target ≡ false) × (made ≡ true) × (fs' ≡ g)
unfolding link_outcome
link_outcome_success true true false true g fs fs' done = (refl, refl, refl, refl, ground arith)
link_outcome_success false p t m g fs fs' done = absurd (ground arith)
link_outcome_success true false t m g fs fs' done = absurd (ground arith)
link_outcome_success true true true m g fs fs' done = absurd (ground arith)
link_outcome_success true true false false g fs fs' done = absurd (ground arith)

make_link_free :
    (works : Bool) (dest target : Text) (fs : FileSystem)
    → lookup target fs ≡ none
    → (make_link works dest target fs).0 ≡ true
    → (make_link works dest target fs).1 ≡ insert target (link dest) fs
unfolding make_link
make_link_free works dest target fs free made = ground arith

pub create_link_success :
    (works : Bool) (repo source target : Text) (fs fs' : FileSystem)
    → create_link works repo source target fs ≡ (none, fs')
    → (lookup target fs ≡ none)
      × (is_some (stat (join_path repo source) fs) ≡ true)
      × (fs' ≡ insert target (link (join_path repo source)) fs)
unfolding create_link lstat
create_link_success works repo source target fs fs' done =
    let dest = join_path repo source in
    let made = make_link works dest target fs in
    let (has_source, has_parent, has_target, works', e) =
      link_outcome_success (is_some (stat dest fs)) (is_some (stat (dir_name target) fs))
        (is_some (lookup target fs)) made.0 made.1 fs fs' done in
    let free = none_of_not target fs has_target in
    (free, has_source, e ∙ make_link_free works dest target fs free works')
  where
    none_of_not :
        (target : Text) (fs : FileSystem)
        → is_some (lookup target fs) ≡ false
        → lookup target fs ≡ none
    none_of_not target fs e = ground arith

stat-insert_new :
    (t p : Text) (node : Node) (fs : FileSystem)
    → lookup p fs ≡ none
    → is_some (stat t fs) ≡ true
    → is_some (stat t (insert p node fs)) ≡ true
unfolding stat
stat-insert_new t p node fs new there = elim (Option-cases (stat t fs)) [
  | inl nothing ↦ absurd (ground arith)
  | inr (old, found) ↦
      let (q, leads, at) = stat-follow t fs old found in
      let leads' = follow-insert_new max_links t p q node old fs new leads at in
      ground (arith, lookup-insert q p node fs)
]

-- A link that CreateLink makes is one that VerifyMappings finds valid for its source and target.
pub create_link_valid :
    (works : Bool) (repo source target : Text) (fs fs' : FileSystem)
    → is_abs repo ≡ true
    → create_link works repo source target fs ≡ (none, fs')
    → mapping_state repo source target fs' ≡ valid
unfolding mapping_state lstat
create_link_valid works repo source target fs fs' rooted done =
    let dest = join_path repo source in
    let (free, has_source, e) = create_link_success works repo source target fs fs' done in
    let still = stat-insert_new dest target (link dest) fs free has_source in
    rw
      (
        e,
        mapping_state,
        lookup-insert_self target (link dest) fs,
        is_abs-join_path repo source rooted,
      )
      (let still' : is_some (stat dest fs') ≡ true = rw e still in
        rw (eq_text_refl dest, still') refl)

-- RemoveLink takes away what CreateLink made, and leaves the file system as it was before.
remove_link-create_link :
    (works : Bool) (repo source target : Text) (fs fs' : FileSystem)
    → create_link works repo source target fs ≡ (none, fs')
    → remove_link true target fs' ≡ (none, fs)
unfolding remove_link lstat remove
remove_link-create_link works repo source target fs fs' done =
    let dest = join_path repo source in
    let (free, _, e) = create_link_success works repo source target fs fs' done in
    rw e (
      ground (
        arith,
        lookup-insert_self target (link dest) fs,
        erase-insert_new target (link dest) fs free,
      ))
