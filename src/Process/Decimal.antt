-- ===== src/Process/Decimal.antt =====
-- %d of package fmt, and strconv.Atoi, on numbers that are not negative.
use dot_sync_manager.Base.{
  ℕ, zero, suc, ◌+◌, ◌-◌, ◌*◌, ◌/◌, ◌%◌, ◌^◌, ◌<◌, ◌≤◌, [], ◌∷◌, Option, none, some, true, false,
  ◌&&◌, if◌then◌else◌, ltb, leb, ◌==◌, Text, ◌≡◌, ◌∙◌, sym, ap, arith, inl, inr, Bool-cases,
}

-- The digits of a number in front of others.
unfoldable pub to_digits : ℕ → ℕ → Text → Text
to_digits zero n done = done
to_digits (suc left) n done =
    let rest = to_digits left (n / 10) ((48 + n % 10) ∷ done) in
    if ltb n 10 then (48 + n % 10) ∷ done else rest

-- %d; a number has fewer digits than its successor is large.
unfoldable pub decimal : ℕ → Text
unfolding to_digits
decimal n = to_digits (suc n) n []

unfoldable pub of_digits : ℕ → Text → Option ℕ
of_digits n [] = some n
of_digits n (b ∷ s) =
    let rest = of_digits (n * 10 + (b - 48)) s in if leb 48 b && leb b 57 then rest else none

-- At least one digit, and a value of int64.
unfoldable pub of_unsigned : Text → Option ℕ
unfolding of_digits
of_unsigned [] = none
of_unsigned (b ∷ s) = elim (of_digits 0 (b ∷ s)) [
  | none ↦ none
  | some n ↦ if ltb n (2 ^ 63) then some n else none
]

-- strconv.Atoi on a text without a minus sign.
unfoldable pub atoi : Text → Option ℕ
unfolding of_unsigned
atoi [] = none
atoi (b ∷ s) = of_unsigned (if b == b'+' then s else b ∷ s)

of_digits-to_digits :
    (left n : ℕ) (done : Text) → n < left → of_digits 0 (to_digits left n done) ≡ of_digits n done
unfolding to_digits of_digits
of_digits-to_digits zero n done low = absurd (omega arith)
of_digits-to_digits (suc left) n done low =
    let same : n / 10 * 10 + n % 10 ≡ n = omega arith in
    elim (Bool-cases (ltb n 10)) [
      | inl last ↦ ground arith
      | inr more ↦
          let big : 10 ≤ n = ground arith in
          let rest = of_digits-to_digits left (n / 10) ((48 + n % 10) ∷ done) (omega arith) in
          ground arith
    ]

-- The first of the digits of a number.
first_digit :
    (left n : ℕ) (done : Text)
    → n < left
    → (b : ℕ) × (s : Text) × (to_digits left n done ≡ b ∷ s) × (leb 48 b ≡ true) × (leb b 57 ≡ true)
unfolding to_digits
first_digit zero n done low = absurd (omega arith)
first_digit (suc left) n done low = elim (Bool-cases (ltb n 10)) [
  | inl last ↦ (48 + n % 10, done, ground arith, ground arith, ground arith)
  | inr more ↦
      let big : 10 ≤ n = ground arith in
      let (b, s, e, lo, hi) = first_digit left (n / 10) ((48 + n % 10) ∷ done) (omega arith) in
      (b, s, ground arith, lo, hi)
]

-- Atoi reads what %d writes.
pub atoi-decimal : (n : ℕ) → n < 2 ^ 63 → atoi (decimal n) ≡ some n
unfolding decimal atoi of_digits
atoi-decimal n low =
    let (b, s, e, lo, hi) = first_digit (suc n) n [] (omega arith) in
    let reads : of_digits 0 (b ∷ s) ≡ some n =
      ap (of_digits 0) (sym e) ∙ of_digits-to_digits (suc n) n [] (omega arith) in
    let unsigned : (b == b'+') ≡ false = ground arith in
    rw e (rw unsigned (rw (reads, of_unsigned) (ground arith)))

pub first_decimal :
    (n : ℕ) → (b : ℕ) × (s : Text) × (decimal n ≡ b ∷ s) × (leb 48 b ≡ true) × (leb b 57 ≡ true)
unfolding decimal
first_decimal n = first_digit (suc n) n [] (omega arith)
