-- ===== src/Tests/Ignoring.antt =====
-- internal/ignore on small patterns, where filepath.Match is equality.
use dot_sync_manager.Base.{[], ◌∷◌, none, some, true, false, ◌≡◌, refl, codes, eq_text}
use dot_sync_manager.Ignore.{Pattern, parse_pattern, match_pattern, match_all, match_path}

abbrev logs : Pattern
logs = parse_pattern (codes "logs/")

abbrev keep_logs : Pattern
keep_logs = parse_pattern (codes "!logs/")

abbrev other : Pattern
other = parse_pattern (codes "tmp")

logs_first : match_all eq_text (logs ∷ []) (codes "a/logs") false ≡ some true
unfolding match_all parse_pattern eq_text
logs_first = refl

logs_kept : match_pattern eq_text keep_logs (codes "a/logs") ≡ some true
unfolding match_pattern parse_pattern eq_text
logs_kept = refl

tmp_silent : match_pattern eq_text other (codes "a/logs") ≡ some false
unfolding match_pattern parse_pattern eq_text
tmp_silent = refl

-- The daemon's own question for the directory src below its root.
src_panics :
    match_path eq_text
      (some (codes "/r"))
      (record { patterns = parse_pattern (codes "src/**/c") ∷ []; root = codes "/r" })
      (codes "/r/src")
    ≡ none
unfolding match_path parse_pattern eq_text
src_panics = refl
