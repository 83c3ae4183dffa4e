-- ===== src/Git/Pull/Keeping.antt =====
-- What PullWithStash keeps of the local changes.
use mathlib.Core.Path.{subst}
use dot_sync_manager.Base.{
  List, [], ◌∷◌, Option, some, true, false, ◌||◌, if◌then◌else◌, Text, ◌≡◌, ◌⊎◌, ap, arith, inl,
  inr, All, Option-cases, Bool-cases,
}
use dot_sync_manager.Base.Dict.{Dict, lookup}
use dot_sync_manager.Git.Commit.{FileStatus, GitStatus, is_changed}
use dot_sync_manager.Git.Stash.{
  File, StashFile, Artifacts, Applied, apply_stash, apply_files, bytes_of,
}
use dot_sync_manager.Git.Stash.Kept.{
  IsRestored, IsKept, IsGone, IsPlain, content_of, local_of, apply_files_restores,
}
use dot_sync_manager.Git.Pull.{
  PullCalls, PullError, is_deleted, stash_entry, stash_files, create_stash, restore_stash, is_clean,
  pull_with_stash,
}
use dot_sync_manager.Git.Pull.Stashing.{
  IsDistinctStatus, stash_files-All, stash_files-IsDistinct, stash_files-entry,
}

not_clean :
    (path : Text) (here : FileStatus) (status : GitStatus)
    → lookup path status ≡ some here
    → is_changed here ≡ true
    → is_clean status ≡ false
unfolding lookup
not_clean path here [] found changed = absurd (ground arith)
not_clean path here ((q, s) ∷ rest) found changed = ground (arith, not_clean path here rest)

-- The two ways in which a restoration can have ended.
restore_cases :
    (stash : List StashFile) (pulled g : Dict File) (cs : Dict Artifacts) (e : Option PullError)
    → restore_stash stash pulled ≡ record { error = e; files = some g; conflicts = cs }
    → (a : Applied) × (apply_files stash (record { files = pulled; conflicts = []; followed = [] })
        ≡ some a)
      × (g ≡ a.files)
      × (cs ≡ a.conflicts)
unfolding restore_stash apply_stash
restore_cases stash pulled g cs e done =
    elim (Option-cases
      (apply_files stash (record { files = pulled; conflicts = []; followed = [] }))) [
        | inl failed ↦ absurd (ground arith)
        | inr (a, applied) ↦ (a, applied, ground arith, ground arith)
      ]

-- A pull that comes to an end left the files alone, or restored the stash onto what it pulled.
pull_cases :
    (calls : PullCalls) (head files pulled g : Dict File) (status : GitStatus) (cs : Dict Artifacts)
    (e : Option PullError)
    → calls.status ≡ some status
    → is_clean status ≡ false
    → calls.pull ≡ some pulled
    → pull_with_stash calls head files ≡ record { error = e; files = some g; conflicts = cs }
    → (g ≡ files)
      ⊎ ((stash : List StashFile) × (stash_files calls head files status ≡ some stash)
          × (restore_stash stash pulled ≡ record { error = e; files = some g; conflicts = cs }))
unfolding pull_with_stash create_stash
pull_cases calls head files pulled g status cs e shown dirty pulls done =
    elim (Option-cases (create_stash calls head files status)) [
      | inl failed ↦ inl (ground arith)
      | inr (stash, stashed) ↦ elim (Option-cases calls.reset) [
        | inl stuck ↦ inl (ground arith)
        | inr (reset, resets) ↦ elim (Bool-cases calls.ctx_done) [
          | inl stopped ↦ inl (ground arith)
          | inr running ↦ elim (Bool-cases calls.worktree_ok) [
            | inr closed ↦ inl (ground arith)
            | inl opens ↦ inr (stash, ground arith, ground arith)
          ]
        ]
      ]
    ]

-- An entry of a file that is there and no link.
entry_lem :
    (through : Text → Option Text) (path : Text) (here : FileStatus) (f : File) (base : Option File)
    (a : Applied)
    → (is_deleted here.worktree || is_deleted here.staging) ≡ false
    → f.is_link ≡ false
    → IsRestored (stash_entry through path here (some f) base) a
    → IsKept path f.content a
unfolding stash_entry bytes_of
entry_lem through path here f base a present plain kept =
    let s = stash_entry through path here (some f) base in
    let there : s.deleted ≡ false = ground arith in
    let local : s.local ≡ some f.content = ground arith in
    let content : bytes_of s.local ≡ f.content = ap bytes_of local in
    subst (λ t. IsKept path t a) content
      (subst (λ b. if b then IsGone path a else IsKept path (bytes_of s.local) a) there kept)

-- However PullWithStash ends once the pull itself works, but for an error of applyStash, the content of a
-- file that was changed here and not deleted is still at its path or in the conflict of its path, where
-- the file is no link, the status has each path once, and no path of the status is a link in what was
-- pulled.
pub pull_keeps :
    (calls : PullCalls) (head files pulled g : Dict File) (status : GitStatus) (cs : Dict Artifacts)
    (e : Option PullError) (path : Text) (here : FileStatus) (f : File)
    → calls.status ≡ some status
    → IsDistinctStatus status
    → lookup path status ≡ some here
    → is_changed here ≡ true
    → (is_deleted here.worktree || is_deleted here.staging) ≡ false
    → lookup path files ≡ some f
    → f.is_link ≡ false
    → calls.pull ≡ some pulled
    → All (λ s. IsPlain s.0 (record { files = pulled; conflicts = []; followed = [] })) status
    → pull_with_stash calls head files ≡ record { error = e; files = some g; conflicts = cs }
    → (content_of (lookup path g) ≡ some f.content) ⊎ (local_of (lookup path cs) ≡ some f.content)
pull_keeps calls head files pulled g status cs e path here f shown distinct found changed present at
      plain pulls plains done =
    elim (pull_cases calls head files pulled g status cs e shown
      (not_clean path here status found changed) pulls done) [
        | inl same ↦ inl (ground arith)
        | inr (stash, stashed, restores) ↦
            let start : Applied = record { files = pulled; conflicts = []; followed = [] } in
            let (a, applied, files_of, conflicts_of) = restore_cases stash pulled g cs e restores in
            let all =
              apply_files_restores stash start a
                (stash_files-IsDistinct calls head files status stash distinct stashed)
                (stash_files-All (λ q. IsPlain q start) calls head files status stash plains
                  stashed)
                applied in
            let kept =
              stash_files-entry (λ s. IsRestored s a) calls head files path here status stash found
                changed stashed all in
            let entry = entry_lem calls.through path here f (lookup path head) a present plain (
              subst (λ o. IsRestored (stash_entry calls.through path here o (lookup path head)) a)
                at kept) in
            rw (files_of, conflicts_of) entry
      ]
