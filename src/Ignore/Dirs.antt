-- ===== src/Ignore/Dirs.antt =====
-- Patterns for directories in internal/ignore/parser.go.
use dot_sync_manager.Base.{
  ◌==◌, List, [], ◌∷◌, ◌++◌, Bool, true, false, Text, eq_text, eq_text_iff, eq_text_refl,
  has_prefix, has_prefix-split, contains_byte, append_assoc, ◌≡◌, refl, arith, inl, inr, Bool-cases,
}
use dot_sync_manager.Base.Paths.{slash, split_slash, cons_part}
use dot_sync_manager.Ignore.{has_part, match_dir}

split_slash-first :
    (part rest : Text)
    → contains_byte part slash ≡ false
    → split_slash (part ++ slash ∷ rest) ≡ part ∷ split_slash rest
unfolding split_slash contains_byte cons_part
split_slash-first [] rest h = refl
split_slash-first (b ∷ part) rest h =
    let plain : (b == slash) ≡ false = ground arith in
    rw (plain, split_slash-first part rest (ground arith)) refl

split_slash-whole : (part : Text) → contains_byte part slash ≡ false → split_slash part ≡ part ∷ []
unfolding split_slash contains_byte cons_part
split_slash-whole [] h = refl
split_slash-whole (b ∷ part) h =
    let plain : (b == slash) ≡ false = ground arith in
    rw (plain, split_slash-whole part (ground arith)) refl

-- A pattern for directories without a slash matches exactly the paths of which one part is the pattern.
match_dir_component :
    (fp_match : Text → Text → Bool) (pattern path : Text)
    → contains_byte pattern slash ≡ false
    → match_dir fp_match pattern path ≡ has_part (λ part. eq_text part pattern) (split_slash path)
unfolding match_dir
match_dir_component fp_match pattern path plain = elim (Bool-cases (eq_text path pattern)) [
  | inl same ↦
      let e : path ≡ pattern = ground (arith, eq_text_iff path pattern) in
      let whole = first_part [] (rw e (split_slash-whole pattern plain)) in ground arith
  | inr other ↦ elim (Bool-cases (has_prefix path (pattern ++ slash ∷ []))) [
    | inr apart ↦ ground arith
    | inl below ↦
        let (rest, e) = has_prefix-split path (pattern ++ slash ∷ []) below in
        let e' : split_slash path ≡ pattern ∷ split_slash rest =
          rw (e, append_assoc pattern (slash ∷ []) rest) (split_slash-first pattern rest plain) in
        let found = first_part (split_slash rest) e' in ground arith
  ]
]
  where
    first_part :
        (rest : List Text)
        → split_slash path ≡ pattern ∷ rest
        → has_part (λ part. eq_text part pattern) (split_slash path) ≡ true
    first_part rest e = rw (e, has_part, eq_text_refl pattern) refl
