-- ===== src/Ignore/Deciding.antt =====
-- parsePattern and the loop of Match in internal/ignore/parser.go.
use mathlib.Core.Path.{subst}
use dot_sync_manager.Base.{
  ◌-◌, List, [], ◌∷◌, ◌++◌, none, some, Bool, true, false, not, if◌then◌else◌, Text, codes,
  eq_text_iff, has_prefix, has_suffix, length, take, drop, take-drop, append-nil, ◌≡◌, refl, arith,
  inl, inr, Option-cases, Bool-cases, All,
}
use dot_sync_manager.Base.Paths.{slash}
use dot_sync_manager.Ignore.{Pattern, parse_pattern, match_pattern, match_all}

-- The line that a pattern is written as.
unfoldable pub print_pattern : Pattern → Text
print_pattern p =
    (if p.negated then codes "!" else []) ++ p.raw ++ (if p.dir_only then slash ∷ [] else [])

split_bang : (line : Text) → has_prefix line (codes "!") ≡ true → codes "!" ++ drop 1 line ≡ line
unfolding has_prefix
split_bang [] h = absurd (cc)
split_bang (b ∷ s) h = ground arith

split_slash_end :
    (s : Text) → has_suffix s (slash ∷ []) ≡ true → take (length s - 1) s ++ slash ∷ [] ≡ s
unfolding has_suffix
split_slash_end s h =
    let n = length s - 1 in
    let ends : drop n s ≡ slash ∷ [] = ground (arith, eq_text_iff (drop n s) (slash ∷ [])) in
    subst (λ t. take n s ++ t ≡ s) ends (take-drop n s)

print_body :
    (body : Text)
    → let dir_only = has_suffix body (slash ∷ []) in
      (if dir_only then take (length body - 1) body else body)
        ++ (if dir_only then slash ∷ [] else [])
      ≡ body
print_body body = elim (Bool-cases (has_suffix body (slash ∷ []))) [
  | inl directory ↦ rw directory (split_slash_end body directory)
  | inr other ↦ rw other (append-nil body)
]

-- A pattern that was parsed is written as the line that it was parsed from.
print-parse_pattern : (line : Text) → print_pattern (parse_pattern line) ≡ line
unfolding print_pattern parse_pattern
print-parse_pattern line = elim (Bool-cases (has_prefix line (codes "!"))) [
  | inl negated ↦ rw negated (rw (print_body (drop 1 line)) (split_bang line negated))
  | inr plain ↦ rw plain (print_body line)
]

module _ (fp_match : Text → Text → Bool) where
  match_all-append :
      (ps qs : List Pattern) (path : Text) (b : Bool)
      → match_all fp_match (ps ++ qs) path b ≡ elim (match_all fp_match ps path b) [
        | none ↦ none
        | some c ↦ match_all fp_match qs path c
      ]
  unfolding match_all
  match_all-append [] qs path b = refl
  match_all-append (p ∷ ps) qs path b = elim (Option-cases (match_pattern fp_match p path)) [
    | inl panics ↦ rw (match_all, panics) refl
    | inr (m, e) ↦ rw (match_all, e) (match_all-append ps qs path _)
  ]

  match_all-silent :
      (qs : List Pattern) (path : Text) (b : Bool)
      → All (λ q. match_pattern fp_match q path ≡ some false) qs
      → match_all fp_match qs path b ≡ some b
  unfolding match_all
  match_all-silent [] path b h = refl
  match_all-silent (q ∷ qs) path b (h, hs) = rw (match_all, h) (match_all-silent qs path b hs)

  -- Where the patterns before do not panic, the last pattern that matches a path decides: the path is
  -- ignored unless that pattern is negated.
  last_match_decides :
      (before after : List Pattern) (p : Pattern) (path : Text) (start b : Bool)
      → match_all fp_match before path start ≡ some b
      → match_pattern fp_match p path ≡ some true
      → All (λ q. match_pattern fp_match q path ≡ some false) after
      → match_all fp_match (before ++ p ∷ after) path start ≡ some (not p.negated)
  unfolding match_all
  last_match_decides before after p path start b ran matched silent =
      rw (match_all-append before (p ∷ after) path start, ran)
        (rw (match_all, matched) (match_all-silent after path (not p.negated) silent))
