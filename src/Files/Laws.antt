-- ===== src/Files/Laws.antt =====
-- How the calls change what each path holds.
use dot_sync_manager.Base.{
  ℕ, [], ◌∷◌, ◌++◌, none, some, Bool, true, false, Text, eq_text, eq_text_iff, has_prefix, take,
  if◌then◌else◌, ◌≡◌, refl, arith, inl, inr, Option-cases,
}
use dot_sync_manager.Base.Dict.{lookup, insert, lookup-insert, lookup-erase, lookup-insert_self}
use dot_sync_manager.Base.Paths.{slash}
use dot_sync_manager.Files.{
  file, FileSystem, Fault, fine, refused, torn, max_links, follow, stat, read_file, truncate, fill,
  bytes_at, pour, copy_file, remove, remove_all, create_exclusive,
}
use dot_sync_manager.Files.Finding.{follow_file, follow_free}

-- A copy onto a file that is there has emptied it when it begins to read.
pub copy_file_opened :
    (fault : Fault) (src dst from to c d : Text) (m m' : ℕ) (fs : FileSystem)
    → follow max_links src fs ≡ some from
    → follow max_links dst fs ≡ some to
    → lookup from fs ≡ some (file c m)
    → lookup to fs ≡ some (file d m')
    → copy_file true fault src dst fs ≡ pour fault from to (insert to (file [] m') fs)
unfolding copy_file read_file stat truncate
copy_file_opened fault src dst from to c d m m' fs s t at at' = ground arith

-- A copy to a new name makes the file with the permissions of the source.
pub copy_file_fresh :
    (fault : Fault) (src dst from to c : Text) (m : ℕ) (fs : FileSystem)
    → follow max_links src fs ≡ some from
    → follow max_links dst fs ≡ some to
    → lookup from fs ≡ some (file c m)
    → lookup to fs ≡ none
    → copy_file true fault src dst fs ≡ pour fault from to (insert to (file [] m) fs)
unfolding copy_file read_file stat truncate
copy_file_fresh fault src dst from to c m fs s t at at' = ground arith

-- Filling the file at `to` changes no other path.
pub lookup-fill :
    (q to content d : Text) (m : ℕ) (fs : FileSystem)
    → lookup to fs ≡ some (file d m)
    → lookup q (fill to content fs) ≡ (if eq_text to q then some (file content m) else lookup q fs)
unfolding fill
lookup-fill q to content d m fs at = ground (arith, lookup-insert q to (file content m) fs)

-- A copy fills an emptied file with what its source then holds.
pub pour_fine :
    (from to q : Text) (m : ℕ) (fs : FileSystem)
    → let r = pour fine from to (insert to (file [] m) fs) in
      (r.0 ≡ true)
      × (lookup q r.1 ≡ (
          if eq_text to q
          then some (file (if eq_text to from then [] else bytes_at from fs) m)
          else lookup q fs))
unfolding pour bytes_at
pour_fine from to q m fs =
    let emptied = insert to (file [] m) fs in
    (
      refl,
      ground (
        arith,
        lookup-fill q to (bytes_at from emptied) [] m emptied
            (lookup-insert_self to (file [] m) fs),
        lookup-insert q to (file [] m) fs,
        lookup-insert from to (file [] m) fs,
      ),
    )

-- Whatever happens to a copy, it changes the path it writes to and no other.
pub pour_others :
    (fault : Fault) (from to q : Text) (m : ℕ) (fs : FileSystem)
    → eq_text to q ≡ false
    → lookup q (pour fault from to (insert to (file [] m) fs)).1 ≡ lookup q fs
unfolding pour
pour_others fine from to q m fs other =
    let emptied = insert to (file [] m) fs in
    ground (
      arith,
      lookup-fill q to (bytes_at from emptied) [] m emptied (lookup-insert_self to (file [] m) fs),
      lookup-insert q to (file [] m) fs,
    )
pour_others refused from to q m fs other = ground (arith, lookup-insert q to (file [] m) fs)
pour_others (torn n) from to q m fs other =
    let emptied = insert to (file [] m) fs in
    ground (
      arith,
      lookup-fill q to (take n (bytes_at from emptied)) [] m emptied
          (lookup-insert_self to (file [] m) fs),
      lookup-insert q to (file [] m) fs,
    )

pub lookup-remove_all :
    (p q : Text) (fs : FileSystem)
    → lookup q (remove_all p fs)
      ≡ (if eq_text q p then none else if has_prefix q (p ++ slash ∷ []) then none else lookup q fs)
unfolding remove_all lookup
lookup-remove_all p q [] = ground arith
lookup-remove_all p q ((r, node) ∷ fs) = ground (arith, lookup-remove_all p q fs, eq_text_iff r q)

pub bytes_at_file :
    (p c : Text) (m : ℕ) (fs : FileSystem) → lookup p fs ≡ some (file c m) → bytes_at p fs ≡ c
unfolding bytes_at
bytes_at_file p c m fs at = ground arith

-- A copy that succeeds was not disturbed.
pub copy_file_success :
    (opened : Bool) (fault : Fault) (src dst : Text) (fs : FileSystem)
    → (copy_file opened fault src dst fs).0 ≡ true
    → (opened ≡ true) × (fault ≡ fine)
unfolding copy_file pour
copy_file_success true fine src dst fs works = (refl, refl)
copy_file_success true refused src dst fs works = absurd (ground arith)
copy_file_success true (torn n) src dst fs works = absurd (ground arith)
copy_file_success false fault src dst fs works = absurd (ground arith)

-- Whatever happens to a copy to a new name, it changes no other path.
pub copy_file_others :
    (opened : Bool) (fault : Fault) (src dst q : Text) (fs : FileSystem)
    → lookup dst fs ≡ none
    → eq_text dst q ≡ false
    → lookup q (copy_file opened fault src dst fs).1 ≡ lookup q fs
unfolding copy_file truncate
copy_file_others opened fault src dst q fs free other = elim (Option-cases (read_file src fs)) [
  | inl unread ↦ ground arith
  | inr ((c, m), reads) ↦ elim (Option-cases (follow max_links src fs)) [
    | inl lost ↦ ground arith
    | inr (from, leads) ↦
        ground (arith, follow_free dst fs free, pour_others fault from dst q m fs other)
  ]
]

pub lookup-remove_others :
    (works : Bool) (p q : Text) (fs : FileSystem)
    → eq_text p q ≡ false
    → lookup q (remove works p fs).1 ≡ lookup q fs
unfolding remove
lookup-remove_others works p q fs other = ground (arith, lookup-erase q p fs)

-- Whatever happens to a copy onto a file, it changes no other path.
pub copy_onto_others :
    (opened : Bool) (fault : Fault) (src dst q d : Text) (k : ℕ) (fs : FileSystem)
    → lookup dst fs ≡ some (file d k)
    → eq_text dst q ≡ false
    → lookup q (copy_file opened fault src dst fs).1 ≡ lookup q fs
unfolding copy_file truncate
copy_onto_others opened fault src dst q d k fs there other =
    elim (Option-cases (read_file src fs)) [
      | inl unread ↦ ground arith
      | inr ((c, m), reads) ↦ elim (Option-cases (follow max_links src fs)) [
        | inl lost ↦ ground arith
        | inr (from, leads) ↦
            ground (arith, follow_file dst d k fs there, pour_others fault from dst q k fs other)
      ]
    ]

pub create_exclusive_others :
    (works : Bool) (p content q : Text) (mode : ℕ) (fs : FileSystem)
    → eq_text p q ≡ false
    → lookup q (create_exclusive works p content mode fs).1 ≡ lookup q fs
unfolding create_exclusive
create_exclusive_others works p content q mode fs other =
    ground (arith, lookup-insert q p (file content mode) fs)
