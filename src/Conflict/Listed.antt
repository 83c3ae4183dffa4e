-- ===== src/Conflict/Listed.antt =====
-- The map that GetConflicts collects agrees with findLatestConflictDir.
use dot_sync_manager.Base.{
  ℕ, ◌-◌, ◌++◌, Option, none, some, true, false, if◌then◌else◌, ltb, Text, eq_text_refl, has_suffix,
  length, length-append, take-append, drop-append, ◌≡◌, arith,
}
use dot_sync_manager.Base.Dict.{Dict, lookup}
use dot_sync_manager.Conflict.{ConflictInfo, remote_suffix, trim_remote, conflict_info, keep_recent}

-- The time at which a file is listed.
unfoldable pub listed_at : Text → Dict ConflictInfo → Option ℕ
listed_at file found = elim (lookup file found) [ none ↦ none | some info ↦ some info.detected_at ]

pub remote_name :
    (file name : Text)
    → name ≡ file ++ remote_suffix
    → (has_suffix name remote_suffix ≡ true) × (trim_remote name ≡ file)
unfolding has_suffix trim_remote
remote_name file name e =
    let n : length (file ++ remote_suffix) - length remote_suffix ≡ length file =
      omega (arith, length-append file remote_suffix) in
    let long : ltb (length (file ++ remote_suffix)) (length remote_suffix) ≡ false =
      ground (arith, length-append file remote_suffix) in
    rw e (
      rw (long, n, drop-append file remote_suffix) (eq_text_refl remote_suffix),
      rw n (take-append file remote_suffix),
    )

-- One file of a directory.
abbrev turn : ℕ → Dict Text → Text → Dict ConflictInfo → Dict ConflictInfo
turn t files name found =
    if has_suffix name remote_suffix
    then keep_recent (conflict_info t files (trim_remote name)) found
    else found
