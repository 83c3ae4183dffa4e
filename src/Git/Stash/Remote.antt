-- ===== src/Git/Stash/Remote.antt =====
-- What was pulled is never overwritten by a stashed change, and when applyStash succeeds.
use dot_sync_manager.Base.{
  List, [], ◌∷◌, none, some, Bool, true, false, not, ◌&&◌, ◌||◌, if◌then◌else◌, Text, is_empty,
  is_some, eq_text, eq_text_iff, ◌≡◌, ◌≢◌, refl, arith, inl, inr, Option-cases, Bool-cases,
}
use dot_sync_manager.Base.Dict.{lookup, lookup-insert_self}
use dot_sync_manager.Git.Stash.{
  File, StashFile, Applied, artifacts, bytes_of, apply_deleted, remote_changed, apply_local,
  apply_file, apply_files, remote_tombstone, local_tombstone,
}

-- A file that was pulled with other content than the stash's base, and than the local file if there is
-- one, stays as it is, and its conflict holds the pulled content, or the note for none if it is empty,
-- beside the local content or the note that the file was deleted.
pub apply_file_remote :
    (s : StashFile) (f : File) (b l : Text) (a a' : Applied)
    → lookup s.path a.files ≡ some f
    → s.had_base ≡ true
    → s.base ≡ some b
    → f.content ≢ b
    → (if s.deleted then none else some l) ≡ s.local
    → (if s.deleted then true else not (eq_text f.content l)) ≡ true
    → apply_file s a ≡ some a'
    → (a'.files ≡ a.files)
      × (lookup s.path a'.conflicts
          ≡ some (record {
            remote = if is_empty f.content then remote_tombstone else f.content;
            base = if is_empty b then none else some b;
            local = if s.deleted then local_tombstone else l;
          }))
unfolding apply_file apply_deleted apply_local remote_changed artifacts bytes_of
apply_file_remote s f b l a a' found had base differs local_copy other done =
    elim (Bool-cases s.deleted) [
      | inl gone ↦ ground (
        arith,
        eq_text_iff f.content b,
        lookup-insert_self s.path (artifacts f.content b none) a.conflicts,
      )
      | inr there ↦ ground (
        arith,
        eq_text_iff f.content b,
        lookup-insert_self s.path (artifacts f.content b (some l)) a.conflicts,
      )
    ]

-- The local copy is read only of a file that was not deleted.
abbrev pub is_readable : StashFile → Bool
is_readable s = s.deleted || is_some s.local

unfoldable pub all_readable : List StashFile → Bool
all_readable [] = true
all_readable (s ∷ rest) = is_readable s && all_readable rest

apply_file_total : (s : StashFile) (a : Applied) → is_some (apply_file s a) ≡ is_readable s
unfolding apply_file
apply_file_total s a = ground arith

-- applyStash gets through all files exactly if the local copy of each file that was not deleted can be
-- read.
apply_files_total :
    (stash : List StashFile) (a : Applied) → is_some (apply_files stash a) ≡ all_readable stash
unfolding apply_files all_readable
apply_files_total [] a = refl
apply_files_total (s ∷ rest) a = elim (Option-cases (apply_file s a)) [
  | inl failed ↦ ground (arith, apply_file_total s a)
  | inr (b, e) ↦ ground (arith, apply_file_total s a, apply_files_total rest b)
]

-- A file whose base is empty and which was pulled unchanged, so empty as well, is a conflict all the same
-- once it was changed locally, and the conflict says that the remote file was deleted.
apply_file_empty_base :
    (s : StashFile) (f : File) (l : Text) (a a' : Applied)
    → lookup s.path a.files ≡ some f
    → f.content ≡ []
    → s.base ≡ some []
    → s.deleted ≡ false
    → s.local ≡ some l
    → l ≢ []
    → apply_file s a ≡ some a'
    → (a'.files ≡ a.files)
      × (lookup s.path a'.conflicts
          ≡ some (record { remote = remote_tombstone; base = none; local = l }))
unfolding apply_file apply_local remote_changed artifacts bytes_of
apply_file_empty_base s f l a a' found empty base there read changed done = ground (
  arith,
  eq_text_iff f.content l,
  lookup-insert_self s.path (artifacts f.content [] (some l)) a.conflicts,
)
