-- ===== src/Process/Reading.antt =====
-- What WritePIDExclusive writes is what readPIDFromPath reads.
use dot_sync_manager.Base.{
  ℕ, zero, suc, ◌+◌, ◌/◌, ◌%◌, ◌^◌, ◌<◌, [], ◌∷◌, ◌++◌, some, Bool, true, false, ◌&&◌, leb, Text,
  is_empty, ◌≡◌, refl, arith,
}
use dot_sync_manager.Base.Result.{ok}
use dot_sync_manager.Process.{
  read_pid, trim_left, trim_right, split_colon, parse_pid, pid_content, is_space,
}
use dot_sync_manager.Process.Decimal.{to_digits, decimal, first_decimal, atoi-decimal}

unfoldable are_digits : Text → Bool
are_digits [] = true
are_digits (b ∷ s) = leb 48 b && leb b 57 && are_digits s

are_digits-to_digits :
    (left n : ℕ) (done : Text) → are_digits done ≡ true → are_digits (to_digits left n done) ≡ true
unfolding are_digits to_digits
are_digits-to_digits zero n done all = all
are_digits-to_digits (suc left) n done all =
    let more : are_digits ((48 + n % 10) ∷ done) ≡ true = ground arith in
    ground (arith, are_digits-to_digits left (n / 10) ((48 + n % 10) ∷ done) more)

split_colon-digits :
    (ds name : Text) → are_digits ds ≡ true → split_colon (ds ++ b':' ∷ name) ≡ (ds, some name)
unfolding are_digits split_colon
split_colon-digits [] name all = refl
split_colon-digits (b ∷ ds) name all = ground (arith, split_colon-digits ds name (ground arith))

trim_right-append :
    (s name : Text) → trim_right name ≡ name → trim_right (s ++ b':' ∷ name) ≡ s ++ b':' ∷ name
unfolding trim_right
trim_right-append [] name plain = ground arith
trim_right-append (b ∷ []) name plain = ground (arith, trim_right-append [] name plain)
trim_right-append (b ∷ c ∷ s) name plain = ground (arith, trim_right-append (c ∷ s) name plain)

are_digits-decimal : (n : ℕ) → are_digits (decimal n) ≡ true
unfolding decimal are_digits
are_digits-decimal n = are_digits-to_digits (suc n) n [] refl

trim_left-append :
    (digits t : Text) (b : ℕ) (s : Text)
    → digits ≡ b ∷ s
    → leb 48 b ≡ true
    → trim_left (digits ++ t) ≡ digits ++ t
unfolding trim_left
trim_left-append digits t b s e lo =
    let apart : is_space b ≡ false = ground arith in rw e (rw (apart, trim_left) refl)

-- A PID of int64 and a name that does not end in a space are read back.
pub read_pid-pid_content :
    (pid : ℕ) (name : Text)
    → 0 < pid
    → pid < 2 ^ 63
    → is_empty name ≡ false
    → trim_right name ≡ name
    → read_pid (some (pid_content pid name)) ≡ ok (record { pid = pid; exe_name = name })
unfolding pid_content read_pid parse_pid
read_pid-pid_content pid name positive low named plain =
    let (b, s, e, lo, hi) = first_decimal pid in
    let left = trim_left-append (decimal pid) (b':' ∷ name) b s e lo in
    let right = trim_right-append (decimal pid) name plain in
    let split = split_colon-digits (decimal pid) name (are_digits-decimal pid) in
    let parsed : parse_pid (decimal pid, some name) ≡ ok (record { pid = pid; exe_name = name }) =
      ground (arith, atoi-decimal pid low) in
    rw (left, right, split) parsed
