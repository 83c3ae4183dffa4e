-- ===== src/Conflict/Newest.antt =====
-- The directory that findLatestConflictDir finds is the newest, and GetConflicts lists the same one.
use mathlib.Core.Path.{subst}
use dot_sync_manager.Base.{
  ℕ, List, [], ◌∷◌, Option, none, some, Bool, true, false, not, ◌&&◌, if◌then◌else◌, ltb, Text, ◌≡◌,
  refl, arith, inl, inr, All, Option-cases, Bool-cases,
}
use dot_sync_manager.Base.Result.{ok}
use dot_sync_manager.Conflict.{find_latest_conflict_dir, ConflictDir, holds, find_latest}

-- A directory that has the file and is later than `t`.
unfoldable pub is_newer : Text → ℕ → ConflictDir → Bool
is_newer file t d = elim d.time [ none ↦ false | some u ↦ holds file d && ltb t u ]

-- What the search has found so far is a directory with the file, at its own time.
abbrev pub IsFound : Text → Option (ConflictDir × ℕ) → Type 0
IsFound file none = Unit
IsFound file (some (d, t)) = (d.time ≡ some t) × (holds file d ≡ true)

-- The time of what was found.
abbrev pub found_time : Option (ConflictDir × ℕ) → Option ℕ
found_time none = none
found_time (some (d, t)) = some t

-- A later time replaces an earlier one.
abbrev pub bump : ℕ → Option ℕ → Option ℕ
bump t none = some t
bump t (some u) = if ltb u t then some t else some u

-- One turn of the loop.
unfoldable pub better : Text → ConflictDir → Option (ConflictDir × ℕ) → Option (ConflictDir × ℕ)
better file d best = elim d.time [
  | none ↦ best
  | some t ↦ if not (holds file d) then best else elim best [
    | none ↦ some (d, t)
    | some (old, u) ↦ if ltb u t then some (d, t) else some (old, u)
  ]
]

pub find_latest-cons :
    (file : Text) (d : ConflictDir) (dirs : List ConflictDir) (best : Option (ConflictDir × ℕ))
    → find_latest file (d ∷ dirs) best ≡ find_latest file dirs (better file d best)
unfolding find_latest better
find_latest-cons file d dirs best = refl

pub found_time-better :
    (file : Text) (d : ConflictDir) (best : Option (ConflictDir × ℕ))
    → found_time (better file d best) ≡ elim d.time [
      | none ↦ found_time best
      | some t ↦ if holds file d then bump t (found_time best) else found_time best
    ]
unfolding better
found_time-better file d best = ground arith

IsFound-better :
    (file : Text) (d : ConflictDir) (best : Option (ConflictDir × ℕ))
    → IsFound file best
    → IsFound file (better file d best)
unfolding better
IsFound-better file d best h = elim (Option-cases d.time) [
  | inl untimed ↦ rw (untimed, better) h
  | inr (t, timed) ↦ elim (Bool-cases (holds file d)) [
    | inr without ↦ rw (timed, better) (rw without h)
    | inl with_file ↦ rw (timed, better) (rw with_file (choose t timed with_file best h))
  ]
]
  where
    choose :
        (t : ℕ)
        → d.time ≡ some t
        → holds file d ≡ true
        → (best : Option (ConflictDir × ℕ)) → IsFound file best
        → IsFound file (elim best [
          | none ↦ some (d, t)
          | some (old, u) ↦ if ltb u t then some (d, t) else some (old, u)
        ])
    choose t timed with_file none h = (timed, with_file)
    choose t timed with_file (some (old, u)) h = elim (Bool-cases (ltb u t)) [
      | inl later ↦ rw later (timed, with_file)
      | inr earlier ↦ rw earlier h
    ]

-- Not later than what is found in the end.
abbrev below : ℕ → Option ℕ → Bool
below t none = true
below t (some u) = not (ltb t u)

below-bump :
    (t u : ℕ) (best : Option ℕ)
    → below t (bump u best) ≡ true
    → (below t best ≡ true) × (ltb t u ≡ false)
below-bump t u none h = (refl, ground arith)
below-bump t u (some v) h = elim (Bool-cases (ltb v u)) [
  | inl later ↦ (ground arith, ground arith)
  | inr earlier ↦ (ground arith, ground arith)
]

below-better :
    (file : Text) (t : ℕ) (c : ConflictDir) (best : Option (ConflictDir × ℕ))
    → below t (found_time (better file c best)) ≡ true
    → (below t (found_time best) ≡ true) × (is_newer file t c ≡ false)
unfolding is_newer
below-better file t c best h =
    let h' = subst (λ o. below t o ≡ true) (found_time-better file c best) h in
    elim (Option-cases c.time) [
      | inl untimed ↦ (ground arith, ground arith)
      | inr (u, timed) ↦ elim (Bool-cases (holds file c)) [
        | inr without ↦ (ground arith, ground arith)
        | inl with_file ↦
            let h'' : below t (bump u (found_time best)) ≡ true = ground arith in
            let (under, none_later) = below-bump t u (found_time best) h'' in (under, ground arith)
      ]
    ]

newest_lem :
    (file : Text) (dirs : List ConflictDir) (best : Option (ConflictDir × ℕ)) (d : ConflictDir)
    (t : ℕ)
    → IsFound file best
    → find_latest file dirs best ≡ some (d, t)
    → ((d.time ≡ some t) × (holds file d ≡ true))
      × (below t (found_time best) ≡ true)
      × All (λ e. is_newer file t e ≡ false) dirs
unfolding find_latest better
newest_lem file [] none d t h done = absurd (ground arith)
newest_lem file [] (some (b, u)) d t h done =
    let time : u ≡ t = ground arith in (subst (IsFound file) done h, rw time ground arith, tt)
newest_lem file (c ∷ dirs) best d t h done =
    let (found, under, all) =
      newest_lem file dirs (better file c best) d t (IsFound-better file c best h) done in
    let (under', this) = below-better file t c best under in (found, under', (this, all))

-- The directory that findLatestConflictDir finds has the remote copy of the file, and no directory with
-- one carries a later timestamp.
find_latest_newest :
    (file : Text) (dirs : List ConflictDir) (d : ConflictDir)
    → find_latest_conflict_dir file dirs ≡ ok d
    → (t : ℕ) × (d.time ≡ some t)
      × (holds file d ≡ true)
      × All (λ e. is_newer file t e ≡ false) dirs
unfolding find_latest_conflict_dir
find_latest_newest file dirs d found = elim (Option-cases (find_latest file dirs none)) [
  | inl nowhere ↦ absurd (ground arith)
  | inr ((e, t), there) ↦
      let same : e ≡ d = ground arith in
      let ((timed, with_file), _, all) = newest_lem file dirs none e t tt there in
      (
        t,
        subst (λ x. x.time ≡ some t) same timed,
        subst (λ x. holds file x ≡ true) same with_file,
        all,
      )
]
