-- ===== src/Conflict/Removing.antt =====
-- removeConflictArtifacts: what the conflict directory still has of each file.
use mathlib.Core.Path.{subst, ap}
use dot_sync_manager.Base.{
  ℕ, ◌-◌, List, [], ◌∷◌, ◌++◌, Option, none, some, Bool, true, false, ◌&&◌, if◌then◌else◌,
  append_assoc, Text, codes, is_some, eq_text, eq_text_iff, eq_text_refl, length, length-append,
  drop, drop-append, is_empty, ◌≡◌, ◌≢◌, refl, arith, inl, inr, Option-cases, Bool-cases, All,
}
use dot_sync_manager.Base.Dict.{Dict, lookup, erase, lookup-erase}
use dot_sync_manager.Conflict.{
  ConflictDir, remote_suffix, local_suffix, base_suffix, trim_remote, holds, find_latest, without,
  is_vacant, remove_conflict_artifacts,
}
use dot_sync_manager.Conflict.Newest.{bump, better, found_time, found_time-better}
use dot_sync_manager.Conflict.Listed.{remote_name}

-- The latest time so far, after one more directory.
unfoldable pub advance : Text → ConflictDir → Option ℕ → Option ℕ
advance file d o = elim d.time [ none ↦ o | some t ↦ if holds file d then bump t o else o ]

-- The time of the latest directory with a file.
unfoldable pub latest : Text → List ConflictDir → Option ℕ → Option ℕ
unfolding advance
latest file [] o = o
latest file (d ∷ dirs) o = latest file dirs (advance file d o)

pub found_time-find_latest :
    (file : Text) (dirs : List ConflictDir) (best : Option (ConflictDir × ℕ))
    → found_time (find_latest file dirs best) ≡ latest file dirs (found_time best)
unfolding find_latest latest better advance
found_time-find_latest file [] best = refl
found_time-find_latest file (d ∷ dirs) best =
    rw (← found_time-better file d best) (found_time-find_latest file dirs (better file d best))

abbrev last_two : Text → Text
last_two s = drop (length s - 2) s

last_two-append : (s p q : Text) → length q ≡ 2 → last_two (s ++ (p ++ q)) ≡ q
last_two-append s p q two =
    let n : length ((s ++ p) ++ q) - 2 ≡ length (s ++ p) =
      omega (arith, length-append (s ++ p) q) in
    let ends : last_two ((s ++ p) ++ q) ≡ q = rw n (drop-append (s ++ p) q) in
    subst (λ t. last_two t ≡ q) (append_assoc s p q) ends

differ : (s t : Text) → last_two s ≢ last_two t → eq_text s t ≡ false
differ s t h = elim (Bool-cases (eq_text s t)) [
  | inl same ↦ absurd (h (ap last_two ((eq_text_iff s t).0 same)))
  | inr other ↦ other
]

ends_remote : (f : Text) → last_two (f ++ remote_suffix) ≡ codes "te"
ends_remote f = last_two-append f (codes ".remo") (codes "te") refl

remote_or_base : (f g : Text) → eq_text (f ++ base_suffix) (g ++ remote_suffix) ≡ false
remote_or_base f g =
    let e : last_two (f ++ base_suffix) ≡ codes "se" =
      last_two-append f (codes ".ba") (codes "se") refl in
    differ (f ++ base_suffix) (g ++ remote_suffix) (rw (e, ends_remote g) (ground arith))

remote_or_local : (f g : Text) → eq_text (f ++ local_suffix) (g ++ remote_suffix) ≡ false
remote_or_local f g =
    let e : last_two (f ++ local_suffix) ≡ codes "al" =
      last_two-append f (codes ".loc") (codes "al") refl in
    differ (f ++ local_suffix) (g ++ remote_suffix) (rw (e, ends_remote g) (ground arith))

remote_or_remote : (f g : Text) → eq_text (f ++ remote_suffix) (g ++ remote_suffix) ≡ eq_text f g
remote_or_remote f g =
    let trim_f : trim_remote (f ++ remote_suffix) ≡ f =
      (remote_name f (f ++ remote_suffix) refl).1 in
    let trim_g : trim_remote (g ++ remote_suffix) ≡ g =
      (remote_name g (g ++ remote_suffix) refl).1 in
    ground (arith, eq_text_iff f g, eq_text_iff (f ++ remote_suffix) (g ++ remote_suffix))

holds-without :
    (f file : Text) (d : ConflictDir)
    → holds f (without file d) ≡ (if eq_text file f then false else holds f d)
unfolding holds without
holds-without f file d =
    let inner = erase (file ++ local_suffix) d.files in
    let middle = erase (file ++ remote_suffix) inner in
    ground (
      arith,
      lookup-erase (f ++ remote_suffix) (file ++ base_suffix) middle,
      lookup-erase (f ++ remote_suffix) (file ++ remote_suffix) inner,
      lookup-erase (f ++ remote_suffix) (file ++ local_suffix) d.files,
      remote_or_base file f,
      remote_or_local file f,
      remote_or_remote file f,
    )

holds-vacant : (f : Text) (d : ConflictDir) → is_vacant d ≡ true → holds f d ≡ false
unfolding holds is_vacant lookup
holds-vacant f d vacant =
    let none_left : d.files ≡ [] = empty_files d.files (ground arith) in rw none_left refl
  where
    empty_files : (m : Dict Text) → is_empty m ≡ true → m ≡ []
    empty_files [] e = refl
    empty_files (x ∷ m) e = absurd (ground arith)

advance-without :
    (f file : Text) (d : ConflictDir) (o : Option ℕ)
    → eq_text file f ≡ false
    → advance f (without file d) o ≡ advance f d o
unfolding advance without
advance-without f file d o other = elim (Option-cases d.time) [
  | inl untimed ↦ ground arith
  | inr (t, timed) ↦ ground (arith, holds-without f file d)
]

advance-unheld : (f : Text) (d : ConflictDir) (o : Option ℕ) → holds f d ≡ false → advance f d o ≡ o
unfolding advance
advance-unheld f d o unheld = elim (Option-cases d.time) [
  | inl untimed ↦ ground arith
  | inr (t, timed) ↦ ground arith
]

advance-is_some :
    (f : Text) (d : ConflictDir) (o : Option ℕ) → is_some o ≡ true → is_some (advance f d o) ≡ true
unfolding advance
advance-is_some f d none e = absurd (ground arith)
advance-is_some f d (some u) e = elim (Option-cases d.time) [
  | inl untimed ↦ ground arith
  | inr (t, timed) ↦ ground arith
]

advance-held :
    (f : Text) (d : ConflictDir) (o : Option ℕ)
    → is_some d.time && holds f d ≡ true
    → is_some (advance f d o) ≡ true
unfolding advance
advance-held f d o held = elim (Option-cases d.time) [
  | inl untimed ↦ absurd (ground arith)
  | inr (t, timed) ↦ elim (Option-cases o) [ inl e ↦ ground arith | inr (u, e) ↦ ground arith ]
]

-- The latest directory with a file that was not resolved stays the latest one.
pub latest-remove :
    (f name file : Text) (dirs : List ConflictDir) (o : Option ℕ)
    → eq_text file f ≡ false
    → latest f (remove_conflict_artifacts name file dirs) o ≡ latest f dirs o
unfolding latest remove_conflict_artifacts
latest-remove f name file [] o other = refl
latest-remove f name file (d ∷ dirs) o other =
    let rest = latest-remove f name file dirs (advance f d o) other in
    elim (Bool-cases (eq_text d.name name)) [
      | inr elsewhere ↦ rw elsewhere rest
      | inl here ↦ elim (Bool-cases (is_vacant (without file d))) [
        | inr kept ↦ rw (here, kept, latest, advance-without f file d o other) rest
        | inl vacant ↦
            let unheld : holds f d ≡ false =
              ground (arith, holds-vacant f (without file d) vacant, holds-without f file d) in
            rw (here, vacant, advance-unheld f d o unheld) (latest-remove f name file dirs o other)
      ]
    ]

-- No directory of the name has the file any more.
pub removed_from :
    (name file : Text) (dirs : List ConflictDir)
    → All
        (λ e. (eq_text e.name name && holds file e) ≡ false)
        (remove_conflict_artifacts name file dirs)
unfolding remove_conflict_artifacts
removed_from name file [] = tt
removed_from name file (d ∷ dirs) =
    let rest = removed_from name file dirs in
    elim (Bool-cases (eq_text d.name name)) [
      | inr elsewhere ↦ rw elsewhere (ground arith, rest)
      | inl here ↦ elim (Bool-cases (is_vacant (without file d))) [
        | inr kept ↦
            rw (here, kept) (ground (arith, holds-without file file d, eq_text_refl file), rest)
        | inl vacant ↦ rw (here, vacant) rest
      ]
    ]

-- Whether a directory of another name has the file.
unfoldable pub held_elsewhere : Text → Text → List ConflictDir → Bool
held_elsewhere name file [] = false
held_elsewhere name file (d ∷ dirs) =
    let rest = held_elsewhere name file dirs in
    if eq_text d.name name then rest else if is_some d.time && holds file d then true else rest

latest-is_some :
    (file : Text) (dirs : List ConflictDir) (o : Option ℕ)
    → is_some o ≡ true
    → is_some (latest file dirs o) ≡ true
unfolding latest
latest-is_some file [] o e = e
latest-is_some file (d ∷ dirs) o e =
    latest-is_some file dirs (advance file d o) (advance-is_some file d o e)

pub latest-held :
    (name file : Text) (dirs : List ConflictDir) (o : Option ℕ)
    → held_elsewhere name file dirs ≡ true
    → is_some (latest file (remove_conflict_artifacts name file dirs) o) ≡ true
unfolding latest remove_conflict_artifacts held_elsewhere
latest-held name file [] o held = absurd (ground arith)
latest-held name file (d ∷ dirs) o held =
    let rest = remove_conflict_artifacts name file dirs in
    elim (Bool-cases (eq_text d.name name)) [
      | inr elsewhere ↦ elim (Bool-cases (is_some d.time && holds file d)) [
        | inl it ↦
            rw elsewhere (latest-is_some file rest (advance file d o) (advance-held file d o it))
        | inr not_it ↦ rw elsewhere (latest-held name file dirs (advance file d o) (ground arith))
      ]
      | inl here ↦ elim (Bool-cases (is_vacant (without file d))) [
        | inr kept ↦
            rw (here, kept)
              (latest-held name file dirs (advance file (without file d) o) (ground arith))
        | inl vacant ↦ rw (here, vacant) (latest-held name file dirs o (ground arith))
      ]
    ]
