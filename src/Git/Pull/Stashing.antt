-- ===== src/Git/Pull/Stashing.antt =====
-- The stash has an entry for each changed path of the status, once.
use mathlib.Core.Path.{subst}
use dot_sync_manager.Base.{
  List, [], ◌∷◌, some, true, false, Text, eq_text, eq_text_iff, ◌≡◌, ◌⊎◌, sym, arith, inl, inr, All,
  Option-cases, Bool-cases,
}
use dot_sync_manager.Base.Dict.{Dict, lookup}
use dot_sync_manager.Git.Commit.{FileStatus, GitStatus, is_changed}
use dot_sync_manager.Git.Stash.{File, StashFile}
use dot_sync_manager.Git.Stash.Kept.{IsDistinct}
use dot_sync_manager.Git.Pull.{PullCalls, stash_entry, stash_files}

-- The status has each path once, as a Go map does.
abbrev pub IsDistinctStatus : GitStatus → Type 0
IsDistinctStatus [] = Unit
IsDistinctStatus ((path, _) ∷ rest) =
    All (λ e. eq_text path e.0 ≡ false) rest × IsDistinctStatus rest

-- A turn of the loop that ends well.
stash_step :
    (calls : PullCalls) (head files : Dict File) (path : Text) (status : FileStatus)
    (rest : GitStatus) (stash : List StashFile)
    → stash_files calls head files ((path, status) ∷ rest) ≡ some stash
    → (more : List StashFile) × (stash_files calls head files rest ≡ some more)
      × (((is_changed status ≡ false) × (stash ≡ more))
          ⊎ ((is_changed status ≡ true)
              × (stash
                  ≡ stash_entry calls.through path status (lookup path files) (lookup path head)
                    ∷ more)))
unfolding stash_files
stash_step calls head files path status rest stash done =
    elim (Option-cases (stash_files calls head files rest)) [
      | inl failed ↦ absurd (ground arith)
      | inr (more, e) ↦ elim (Bool-cases (is_changed status)) [
        | inl changed ↦ elim (Bool-cases (calls.copy_fails path)) [
          | inl fails ↦ absurd (ground arith)
          | inr copies ↦ (more, e, inr (changed, ground arith))
        ]
        | inr same ↦ (more, e, inl (same, ground arith))
      ]
    ]

-- A property of the paths of the status is one of the paths that are stashed.
pub stash_files-All :
    (P : Text → Type 0) (calls : PullCalls) (head files : Dict File) (status : GitStatus)
    (stash : List StashFile)
    → All (λ e. P e.0) status
    → stash_files calls head files status ≡ some stash
    → All (λ s. P s.path) stash
unfolding stash_files stash_entry
stash_files-All P calls head files [] stash all done =
    let empty : [] ≡ stash = ground arith in subst (λ t. All (λ s. P s.path) t) empty tt
stash_files-All P calls head files ((path, status) ∷ rest) stash (p, all) done =
    let (more, e, how) = stash_step calls head files path status rest stash done in
    let later = stash_files-All P calls head files rest more all e in
    elim how [
      | inl (same, all_of) ↦ subst (λ t. All (λ s. P s.path) t) (sym all_of) later
      | inr (changed, all_of) ↦ subst (λ t. All (λ s. P s.path) t) (sym all_of) (p, later)
    ]

pub stash_files-IsDistinct :
    (calls : PullCalls) (head files : Dict File) (status : GitStatus) (stash : List StashFile)
    → IsDistinctStatus status
    → stash_files calls head files status ≡ some stash
    → IsDistinct stash
unfolding stash_files stash_entry
stash_files-IsDistinct calls head files [] stash distinct done =
    let empty : [] ≡ stash = ground arith in subst (λ t. IsDistinct t) empty tt
stash_files-IsDistinct calls head files ((path, status) ∷ rest) stash (apart, distinct) done =
    let (more, e, how) = stash_step calls head files path status rest stash done in
    let later = stash_files-IsDistinct calls head files rest more distinct e in
    let apart' = stash_files-All (λ q. eq_text path q ≡ false) calls head files rest more apart e in
    elim how [
      | inl (same, all_of) ↦ subst (λ t. IsDistinct t) (sym all_of) later
      | inr (changed, all_of) ↦ subst (λ t. IsDistinct t) (sym all_of) (apart', later)
    ]

-- What the stash has of a path of the status.
pub stash_files-entry :
    (R : StashFile → Type 0) (calls : PullCalls) (head files : Dict File) (path : Text)
    (here : FileStatus) (status : GitStatus) (stash : List StashFile)
    → lookup path status ≡ some here
    → is_changed here ≡ true
    → stash_files calls head files status ≡ some stash
    → All R stash
    → R (stash_entry calls.through path here (lookup path files) (lookup path head))
unfolding lookup
stash_files-entry R calls head files path here [] stash found changed done all =
    absurd (ground arith)
stash_files-entry R calls head files path here ((q, status) ∷ rest) stash found changed done all =
    let (more, e, how) = stash_step calls head files q status rest stash done in
    elim (Bool-cases (eq_text q path)) [
      | inl same ↦
          let same_path : q ≡ path = ground (arith, eq_text_iff q path) in
          let same_status : status ≡ here = ground arith in
          elim how [
            | inl (unchanged, all_of) ↦ absurd (ground arith)
            | inr (changed', all_of) ↦
                let first = (subst (λ t. All R t) all_of all).0 in
                subst (λ p. R (stash_entry calls.through p here (lookup p files) (lookup p head)))
                  same_path
                  (subst (λ st. R (stash_entry calls.through q st (lookup q files) (lookup q head)))
                    same_status first)
          ]
      | inr other ↦
          let found' : lookup path rest ≡ some here = ground arith in
          elim how [
            | inl (unchanged, all_of) ↦
                stash_files-entry R calls head files path here rest more found' changed e
                  (subst (λ t. All R t) all_of all)
            | inr (changed', all_of) ↦
                stash_files-entry R calls head files path here rest more found' changed e
                  ((subst (λ t. All R t) all_of all).1)
          ]
    ]
