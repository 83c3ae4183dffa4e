-- ===== src/Git/Stash/Kept.antt =====
-- No local change is lost: after applyStash the repository or the conflict directory has it.
use dot_sync_manager.Base.{
  ℕ, List, [], ◌∷◌, Option, none, some, false, if◌then◌else◌, Text, eq_text, eq_text_iff, ◌≡◌, refl,
  arith, ◌⊎◌, inl, inr, All, Option-cases, Bool-cases,
}
use mathlib.Core.Path.{subst}
use dot_sync_manager.Base.Dict.{
  Dict, lookup, insert, erase, lookup-insert, lookup-erase, lookup-insert_self, lookup-erase_self,
}
use dot_sync_manager.Git.Stash.{
  File, StashFile, Artifacts, Applied, normalized_perm, artifacts, write_file, bytes_of,
  apply_deleted, apply_local, apply_file, apply_files, local_tombstone,
}

lookup-insert_ne :
    {V : Type 0} (j k : Text) (v : V) (m : Dict V)
    → eq_text k j ≡ false
    → lookup j (insert k v m) ≡ lookup j m
lookup-insert_ne j k v m ne = ground (arith, lookup-insert j k v m)

lookup-erase_ne :
    {V : Type 0} (j k : Text) (m : Dict V) → eq_text k j ≡ false → lookup j (erase k m) ≡ lookup j m
lookup-erase_ne j k m ne = ground (arith, lookup-erase j k m)

-- The files and the conflicts of a path.
abbrev at_path : Text → Applied → Option File × Option Artifacts
at_path path a = (lookup path a.files, lookup path a.conflicts)

write_file-other :
    (path : Text) (s : StashFile) (l : Text) (mode : ℕ) (a : Applied)
    → eq_text s.path path ≡ false
    → at_path path (write_file s.path l mode a) ≡ at_path path a
unfolding write_file
write_file-other path s l mode a ne = elim (Option-cases (lookup s.path a.files)) [
  | inl missing ↦ rw (missing, write_file) (rw (lookup-insert_ne path s.path _ a.files ne) refl)
  | inr (f, found) ↦ elim (Bool-cases f.is_link) [
    | inl link ↦ rw (found, write_file) (rw link refl)
    | inr plain ↦
        rw (found, write_file) (rw plain (rw (lookup-insert_ne path s.path _ a.files ne) refl))
  ]
]

apply_deleted-other :
    (path : Text) (s : StashFile) (f : File) (a : Applied)
    → eq_text s.path path ≡ false
    → at_path path (apply_deleted s f a) ≡ at_path path a
unfolding apply_deleted
apply_deleted-other path s f a ne = ground (
  arith,
  lookup-erase_ne path s.path a.files ne,
  lookup-insert_ne path s.path (artifacts f.content (bytes_of s.base) none) a.conflicts ne,
)

apply_local-other :
    (path : Text) (s : StashFile) (l : Text) (a : Applied)
    → eq_text s.path path ≡ false
    → at_path path (apply_local s l a) ≡ at_path path a
unfolding apply_local
apply_local-other path s l a ne = elim (Option-cases (lookup s.path a.files)) [
  | inl missing ↦
      rw (missing, apply_local)
        (ground (
          arith,
          write_file-other path s l (normalized_perm s.mode) a ne,
          lookup-insert_ne path s.path (artifacts [] (bytes_of s.base) (some l)) a.conflicts ne,
        ))
  | inr (f, found) ↦
      rw (found, apply_local)
        (ground (
          arith,
          write_file-other path s l (normalized_perm s.mode) a ne,
          lookup-insert_ne path s.path (artifacts f.content (bytes_of s.base) (some l)) a.conflicts
              ne,
          lookup-insert_ne path s.path (record f { mode = s.mode }) a.files ne,
        ))
]

-- What the loop does for one file leaves the other paths alone.
apply_file-other :
    (path : Text) (s : StashFile) (a a' : Applied)
    → apply_file s a ≡ some a'
    → eq_text s.path path ≡ false
    → at_path path a' ≡ at_path path a
unfolding apply_file
apply_file-other path s a a' done ne = elim (Option-cases (lookup s.path a.files)) [
  | inl missing ↦ elim (Option-cases s.local) [
    | inl unread ↦ ground arith
    | inr (l, read) ↦ ground (arith, apply_local-other path s l a ne)
  ]
  | inr (f, found) ↦ elim (Option-cases s.local) [
    | inl unread ↦ ground (arith, apply_deleted-other path s f a ne)
    | inr (l, read) ↦
        ground (arith, apply_local-other path s l a ne, apply_deleted-other path s f a ne)
  ]
]

abbrev pub content_of : Option File → Option Text
content_of none = none
content_of (some f) = some f.content

abbrev pub local_of : Option Artifacts → Option Text
local_of none = none
local_of (some c) = some c.local

-- What becomes of a file that existed locally with the content `l`: the repository has that content, or
-- the conflict of its path does.
abbrev pub IsKept : Text → Text → Applied → Type 0
IsKept path l a =
    (content_of (lookup path a.files) ≡ some l) ⊎ (local_of (lookup path a.conflicts) ≡ some l)

-- What becomes of a file that was deleted locally: it is deleted again, or the conflict says so.
abbrev pub IsGone : Text → Applied → Type 0
IsGone path a =
    (lookup path a.files ≡ none) ⊎ (local_of (lookup path a.conflicts) ≡ some local_tombstone)

-- The local change of a stashed file is in the repository or in a conflict.
abbrev pub IsRestored : StashFile → Applied → Type 0
IsRestored s a = if s.deleted then IsGone s.path a else IsKept s.path (bytes_of s.local) a

-- At its path the repository has no link.
abbrev pub IsPlain : Text → Applied → Type 0
IsPlain path a = (f : File) → lookup path a.files ≡ some f → f.is_link ≡ false

apply_deleted-IsGone :
    (s : StashFile) (f : File) (a : Applied) → IsGone s.path (apply_deleted s f a)
unfolding apply_deleted artifacts
apply_deleted-IsGone s f a =
    let c = artifacts f.content (bytes_of s.base) none in
    ground (arith, lookup-erase_self s.path a.files, lookup-insert_self s.path c a.conflicts)

apply_local-IsKept :
    (s : StashFile) (l : Text) (a : Applied)
    → IsPlain s.path a
    → IsKept s.path l (apply_local s l a)
unfolding apply_local artifacts write_file
apply_local-IsKept s l a plain = elim (Option-cases (lookup s.path a.files)) [
  | inl missing ↦
      let made : File = record { content = l; mode = normalized_perm s.mode; is_link = false } in
      rw (missing, apply_local)
        (rw (missing, write_file)
          (ground (
            arith,
            lookup-insert_self s.path made a.files,
            lookup-insert_self s.path (artifacts [] (bytes_of s.base) (some l)) a.conflicts,
          )))
  | inr (f, found) ↦
      rw (found, apply_local)
        (rw (found, write_file)
          (ground (
            arith,
            plain f found,
            eq_text_iff f.content l,
            lookup-insert_self s.path (record f { content = l }) a.files,
            lookup-insert_self s.path (record f { mode = s.mode }) a.files,
            lookup-insert_self s.path (artifacts f.content (bytes_of s.base) (some l)) a.conflicts,
          )))
]

apply_file-IsRestored :
    (s : StashFile) (a a' : Applied) → IsPlain s.path a → apply_file s a ≡ some a' → IsRestored s a'
unfolding apply_file
apply_file-IsRestored s a a' plain done = elim (Bool-cases s.deleted) [
  | inl gone ↦ elim (Option-cases (lookup s.path a.files)) [
    | inl missing ↦ rw gone (inl (ground arith))
    | inr (f, found) ↦
        let e : apply_deleted s f a ≡ a' = ground arith in
        rw (gone, ← e) (apply_deleted-IsGone s f a)
  ]
  | inr there ↦ elim (Option-cases s.local) [
    | inl unread ↦ absurd (ground arith)
    | inr (l, read) ↦
        let e : apply_local s l a ≡ a' = ground arith in
        rw (there, read, ← e) (apply_local-IsKept s l a plain)
  ]
]

-- The paths of a snapshot are different, since they are the keys of git's status.
abbrev pub IsDistinct : List StashFile → Type 0
IsDistinct [] = Unit
IsDistinct (s ∷ rest) = All (λ t. eq_text s.path t.path ≡ false) rest × IsDistinct rest

IsRestored-same :
    (s : StashFile) (a a' : Applied)
    → at_path s.path a' ≡ at_path s.path a
    → IsRestored s a
    → IsRestored s a'
IsRestored-same s a a' e h = elim (Bool-cases s.deleted) [
  | inl gone ↦
      let h' =
        subst (λ b. if b then IsGone s.path a else IsKept s.path (bytes_of s.local) a) gone h in
      rw gone (ground (arith, h'))
  | inr there ↦
      let h' =
        subst (λ b. if b then IsGone s.path a else IsKept s.path (bytes_of s.local) a) there h in
      rw there (ground (arith, h'))
]

apply_files-IsRestored :
    (s : StashFile) (rest : List StashFile) (a a' : Applied)
    → All (λ t. eq_text s.path t.path ≡ false) rest
    → apply_files rest a ≡ some a'
    → IsRestored s a
    → IsRestored s a'
unfolding apply_files
apply_files-IsRestored s [] a a' ne done h =
    let e : a ≡ a' = ground arith in subst (λ x. IsRestored s x) e h
apply_files-IsRestored s (t ∷ rest) a a' (ne, nes) done h = elim (Option-cases (apply_file t a)) [
  | inl failed ↦ absurd (ground arith)
  | inr (b, e) ↦
      let ne' : eq_text t.path s.path ≡ false =
        ground (arith, eq_text_iff s.path t.path, eq_text_iff t.path s.path) in
      apply_files-IsRestored s rest b a' nes (ground arith)
        (IsRestored-same s a b (apply_file-other s.path t a b e ne') h)
]

IsPlain-All :
    (s : StashFile) (rest : List StashFile) (a b : Applied)
    → All (λ t. eq_text s.path t.path ≡ false) rest
    → apply_file s a ≡ some b
    → All (λ t. IsPlain t.path a) rest
    → All (λ t. IsPlain t.path b) rest
IsPlain-All s [] a b ne e h = tt
IsPlain-All s (t ∷ rest) a b (ne, nes) e (h, hs) =
    let same = apply_file-other t.path s a b e ne in
    (λ f found. h f (ground arith), IsPlain-All s rest a b nes e hs)

-- No local change is lost. Where applyStash gets through all files of a snapshot, whose paths differ, and
-- the repository has no links at them, then of each file that existed locally the repository or the
-- conflict directory has the local content, and each one deleted locally is deleted or in conflict.
pub apply_files_restores :
    (stash : List StashFile) (a a' : Applied)
    → IsDistinct stash
    → All (λ s. IsPlain s.path a) stash
    → apply_files stash a ≡ some a'
    → All (λ s. IsRestored s a') stash
unfolding apply_files
apply_files_restores [] a a' distinct plain done = tt
apply_files_restores (s ∷ rest) a a' (ne, distinct) (plain, plains) done =
    elim (Option-cases (apply_file s a)) [
      | inl failed ↦ absurd (ground arith)
      | inr (b, e) ↦
          let more : apply_files rest b ≡ some a' = ground arith in
          (
            apply_files-IsRestored s rest b a' ne more (apply_file-IsRestored s a b plain e),
            apply_files_restores rest b a' distinct (IsPlain-All s rest a b ne e plains) more,
          )
    ]
