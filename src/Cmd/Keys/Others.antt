-- ===== src/Cmd/Keys/Others.antt =====
-- What setNestedValueRecursive leaves alone.
use dot_sync_manager.Base.{List, [], ◌∷◌, Bool, true, false, if◌then◌else◌, Text, eq_text}

-- Two keys part before either ends.
unfoldable pub is_apart : List Text → List Text → Bool
unfolding eq_text
is_apart [] qs = false
is_apart (p ∷ ps) [] = false
is_apart (p ∷ ps) (q ∷ qs) = if eq_text p q then is_apart ps qs else true
