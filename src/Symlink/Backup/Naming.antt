-- ===== src/Symlink/Backup/Naming.antt =====
-- The names of backups, and the paths that ListBackups reads from them.
use dot_sync_manager.Base.{
  ℕ, zero, suc, ◌==◌, [], ◌∷◌, ◌++◌, some, Bool, true, false, ◌&&◌, Text, codes, is_empty,
  has_prefix, contains_byte, length, append_assoc, ◌≡◌, ◌↔◌, refl, arith, inl, inr, Bool-cases,
}
use dot_sync_manager.Base.Paths.{slash, is_abs}
use dot_sync_manager.Symlink.Backup.{underscore, replace_byte, three_digits, backup_name}
use dot_sync_manager.Symlink.Backup.Listing.{
  is_digit, skip_digits, skip_byte, rest_of_name, after_fraction, after_stamp, after_counter,
  encoded_part, original_path,
}

abbrev pub digits : Text → Bool
digits [] = true
digits (b ∷ s) = is_digit b && digits s

-- The layout 20060102_150405.000000.
pub record IsStamp (stamp : Text) : Type 0 where
  pub day : Text
  pub time : Text
  pub fraction : Text
  pub laid_out : stamp ≡ day ++ underscore ∷ (time ++ b'.' ∷ fraction)
  pub day_digits : (length day ≡ 8) × (digits day ≡ true)
  pub time_digits : (length time ≡ 6) × (digits time ≡ true)
  pub fraction_digits : (length fraction ≡ 6) × (digits fraction ≡ true)

skip_digits-append :
    (n : ℕ) (ds s : Text) → length ds ≡ n → digits ds ≡ true → skip_digits n (ds ++ s) ≡ some s
unfolding skip_digits
skip_digits-append zero [] s len all = refl
skip_digits-append zero (b ∷ ds) s len all = absurd (omega arith)
skip_digits-append (suc n) [] s len all = absurd (omega arith)
skip_digits-append (suc n) (b ∷ ds) s len all =
    ground (arith, skip_digits-append n ds s (omega arith) (ground arith))

contains-replace_byte :
    (a b c : ℕ) (s : Text)
    → (a == c) ≡ false
    → (b == c) ≡ false
    → contains_byte (replace_byte a b s) c ≡ contains_byte s c
unfolding contains_byte replace_byte
contains-replace_byte a b c [] h k = refl
contains-replace_byte a b c (d ∷ s) h k = ground (arith, contains-replace_byte a b c s h k)

replace_byte_back :
    (s : Text)
    → (replace_byte underscore slash (replace_byte slash underscore s) ≡ s)
      ↔ (contains_byte s underscore ≡ false)
unfolding contains_byte replace_byte
replace_byte_back [] = (λ e. refl, λ e. refl)
replace_byte_back (b ∷ s) = let h = replace_byte_back s in (λ e. ground arith, λ e. ground arith)

-- What follows the stamp, with a counter or without.
rest_of_name_lem :
    (encoded : Text)
    → is_empty encoded ≡ false
    → contains_byte encoded 10 ≡ false
    → rest_of_name (underscore ∷ encoded) ≡ some encoded
unfolding rest_of_name skip_byte
rest_of_name_lem encoded e n = ground arith

after_fraction_lem :
    (ds s : Text) → length ds ≡ 6 → digits ds ≡ true → after_fraction (b'.' ∷ (ds ++ s)) ≡ some s
unfolding after_fraction skip_byte
after_fraction_lem ds s len all = rw (after_fraction, skip_digits-append 6 ds s len all) refl

after_stamp_lem : (stamp s : Text) → IsStamp stamp → after_stamp (stamp ++ s) ≡ some s
unfolding after_stamp skip_byte
after_stamp_lem stamp s v =
    let tail = v.fraction ++ s in
    let apart : stamp ++ s ≡ v.day ++ underscore ∷ (v.time ++ b'.' ∷ tail) =
      rw
        (
          v.laid_out,
          append_assoc v.day (underscore ∷ (v.time ++ b'.' ∷ v.fraction)) s,
          append_assoc v.time (b'.' ∷ v.fraction) s,
        )
        refl in
    let (day_length, day_all) = v.day_digits in
    let (time_length, time_all) = v.time_digits in
    let (fraction_length, fraction_all) = v.fraction_digits in
    rw
      (
        apart,
        after_stamp,
        skip_digits-append 8 v.day (underscore ∷ (v.time ++ b'.' ∷ tail)) day_length day_all,
        skip_digits-append 6 v.time (b'.' ∷ tail) time_length time_all,
        after_fraction_lem v.fraction s fraction_length fraction_all,
      )
      refl

after_counter_plain :
    (encoded : Text)
    → contains_byte encoded 10 ≡ false
    → after_counter (underscore ∷ underscore ∷ encoded) ≡ some (underscore ∷ encoded)
unfolding after_counter skip_byte skip_digits contains_byte
after_counter_plain encoded line =
    rw (rest_of_name_lem (underscore ∷ encoded) refl (ground arith), after_counter) refl

after_counter_counted :
    (n : ℕ) (encoded : Text)
    → contains_byte encoded 10 ≡ false
    → after_counter (underscore ∷ (three_digits n ++ underscore ∷ underscore ∷ encoded))
      ≡ some (underscore ∷ encoded)
unfolding after_counter skip_byte contains_byte three_digits
after_counter_counted n encoded line =
    rw
      (
        after_counter,
        skip_digits-append 3 (three_digits n) (underscore ∷ underscore ∷ encoded) refl
            (ground arith),
        rest_of_name_lem (underscore ∷ encoded) refl (ground arith),
      )
      refl

encoded_part-append :
    (stamp s : Text)
    → IsStamp stamp
    → encoded_part (codes "backup_" ++ (stamp ++ s)) ≡ after_counter s
unfolding encoded_part has_prefix
encoded_part-append stamp s v = rw (encoded_part, after_stamp_lem stamp s v) refl

-- The encoded path is found in the name of every attempt.
encoded_part_name :
    (stamp rest : Text) (attempt : ℕ)
    → IsStamp stamp
    → contains_byte rest 10 ≡ false
    → encoded_part (backup_name stamp attempt (slash ∷ rest))
      ≡ some (replace_byte slash underscore (slash ∷ rest))
unfolding backup_name replace_byte
encoded_part_name stamp rest attempt v line =
    let encoded = replace_byte slash underscore rest in
    let line' : contains_byte encoded 10 ≡ false =
      ground (arith, contains-replace_byte slash underscore 10 rest) in
    elim (Bool-cases (attempt == 0)) [
      | inl first ↦
          rw (first, backup_name, encoded_part-append stamp (underscore ∷ underscore ∷ encoded) v)
            (after_counter_plain encoded line')
      | inr later ↦
          rw
            (
              later,
              backup_name,
              encoded_part-append stamp
                  (underscore ∷ (three_digits attempt ++ underscore ∷ underscore ∷ encoded)) v,
            )
            (after_counter_counted attempt encoded line')
    ]

-- ListBackups shows the path that was backed up exactly if that path has no underscore, whichever attempt
-- named the backup, for an absolute path with no line break.
pub original_path_iff :
    (stamp rest : Text) (attempt : ℕ)
    → IsStamp stamp
    → contains_byte rest 10 ≡ false
    → (original_path (backup_name stamp attempt (slash ∷ rest)) ≡ slash ∷ rest)
      ↔ (contains_byte (slash ∷ rest) underscore ≡ false)
unfolding original_path is_abs has_prefix replace_byte
original_path_iff stamp rest attempt v line =
    rw (original_path, encoded_part_name stamp rest attempt v line)
      (replace_byte_back (slash ∷ rest))
