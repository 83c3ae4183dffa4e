-- ===== src/Ignore/Middle.antt =====
-- The part of matchDoubleAsterisk in internal/ignore/parser.go for dir/**/file.
use mathlib.Core.Path.{subst}
use dot_sync_manager.Base.{
  ◌∙◌, ◌-◌, [], ◌∷◌, ◌++◌, some, true, false, ltb, Text, is_empty, eq_text_refl, has_prefix,
  has_suffix, has_prefix-append, length, length-append, take, take-append, drop, drop-append,
  append_assoc, ◌≡◌, sym, arith,
}
use dot_sync_manager.Base.Paths.{slash}
use dot_sync_manager.Ignore.{middle_match}

has_suffix-append : (s t : Text) → has_suffix (s ++ t) t ≡ true
unfolding has_suffix
has_suffix-append s t =
    let n : length (s ++ t) - length t ≡ length s = omega (arith, length-append s t) in
    let long : ltb (length (s ++ t)) (length t) ≡ false = ground (arith, length-append s t) in
    rw (long, n, drop-append s t) (eq_text_refl t)

-- A path below dir whose name only ends in the name of dir/**/name matches all the same.
middle_match_loose :
    (prefix word suffix : Text)
    → is_empty suffix ≡ false
    → middle_match prefix suffix ((prefix ++ slash ∷ word) ++ suffix) ≡ some true
unfolding middle_match has_prefix
middle_match_loose prefix word suffix some_suffix =
    let start = prefix ++ slash ∷ word in
    let path = start ++ suffix in
    let n : length path - length suffix ≡ length start =
      omega (arith, length-append start suffix) in
    let long : ltb (length start) (length prefix) ≡ false =
      ground (arith, length-append prefix (slash ∷ word)) in
    let below : has_prefix path (prefix ++ slash ∷ []) ≡ true =
      subst (λ t. has_prefix t (prefix ++ slash ∷ []) ≡ true)
        (append_assoc prefix (slash ∷ []) (word ++ suffix)
          ∙ sym (append_assoc prefix (slash ∷ word) suffix))
        (has_prefix-append (prefix ++ slash ∷ []) (word ++ suffix)) in
    let middle : drop (length prefix) (take (length start) path) ≡ slash ∷ word =
      rw (take-append start suffix) (drop-append prefix (slash ∷ word)) in
    rw (below, some_suffix, has_suffix-append start suffix, n, long) (rw middle (ground arith))
