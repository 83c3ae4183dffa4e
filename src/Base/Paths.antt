-- ===== src/Base/Paths.antt =====
-- Go's package path/filepath on Unix: Clean, Join, Base and IsAbs, on texts.
use Prim.Native.Nat.{ℕ}
use mathlib.Core.Path.{◌≡◌, refl}
use mathlib.Core.Bool.{Bool, true, ◌||◌}
use mathlib.Core.List.{List, [], ◌∷◌, ◌++◌}
use dot_sync_manager.Base.Tests.{◌==◌, if◌then◌else◌}
use dot_sync_manager.Base.Lists.{is_empty}
use dot_sync_manager.Base.Strings.{Text, codes, eq_text, has_prefix}

abbrev pub slash : ℕ
slash = b'/'

unfoldable pub is_abs : Text → Bool
unfolding has_prefix
is_abs p = has_prefix p (slash ∷ [])

-- Put a byte in front of the first part.
unfoldable pub cons_part : ℕ → List Text → List Text
cons_part b [] = (b ∷ []) ∷ []
cons_part b (part ∷ parts) = (b ∷ part) ∷ parts

-- strings.Split(p, "/")
unfoldable pub split_slash : Text → List Text
unfolding cons_part
split_slash [] = [] ∷ []
split_slash (b ∷ p) = let rest = split_slash p in if b == slash then [] ∷ rest else cons_part b rest

-- The parts joined by slashes.
unfoldable pub join_slash : List Text → Text
join_slash [] = []
join_slash (part ∷ []) = part
join_slash (part ∷ next ∷ parts) = part ++ slash ∷ join_slash (next ∷ parts)

-- The parts that Clean keeps so far, the last one first, and the next part.
unfoldable pub push_part : Bool → Text → List Text → List Text
unfolding eq_text
push_part rooted part kept =
    if is_empty part || eq_text part (codes ".")
    then kept
    else if eq_text part (codes "..")
    then parent kept
    else part ∷ kept
  where
    parent : List Text → List Text
    parent [] = if rooted then [] else codes ".." ∷ []
    parent (top ∷ below) = if eq_text top (codes "..") then codes ".." ∷ top ∷ below else below

unfoldable pub clean_parts : Bool → List Text → List Text → List Text
unfolding push_part
clean_parts rooted [] kept = kept
clean_parts rooted (part ∷ parts) kept = clean_parts rooted parts (push_part rooted part kept)

unfoldable pub reverse_parts : List Text → List Text → List Text
reverse_parts [] done = done
reverse_parts (part ∷ parts) done = reverse_parts parts (part ∷ done)

-- filepath.Clean
unfoldable pub clean : Text → Text
unfolding is_abs split_slash clean_parts reverse_parts join_slash
clean p =
    let rooted = is_abs p in
    let body = join_slash (reverse_parts (clean_parts rooted (split_slash p) []) []) in
    if rooted then slash ∷ body else if is_empty body then codes "." else body

-- filepath.Join of two elements
unfoldable pub join_path : Text → Text → Text
unfolding clean
join_path a b =
    if is_empty a
    then if is_empty b then [] else clean b
    else if is_empty b
    then clean a
    else clean (a ++ slash ∷ b)

-- The parts of a path that are not empty.
unfoldable pub last_part : List Text → Text → Text
last_part [] found = found
last_part (part ∷ parts) found = last_part parts (if is_empty part then found else part)

-- filepath.Base
unfoldable pub base_name : Text → Text
unfolding split_slash last_part
base_name p =
    let found = last_part (split_slash p) [] in
    if is_empty p then codes "." else if is_empty found then codes "/" else found

-- The path up to its last slash, that slash included.
unfoldable pub upto_slash : Text → Text
upto_slash [] = []
upto_slash (b ∷ p) =
    let rest = upto_slash p in if is_empty rest then if b == slash then b ∷ [] else [] else b ∷ rest

-- filepath.Dir
unfoldable pub dir_name : Text → Text
unfolding clean upto_slash
dir_name p = clean (upto_slash p)

pub is_abs-append : (p q : Text) → is_abs p ≡ true → is_abs (p ++ q) ≡ true
unfolding is_abs has_prefix
is_abs-append [] q h = cc
is_abs-append (b ∷ p) q h = h

pub is_abs-clean : (p : Text) → is_abs p ≡ true → is_abs (clean p) ≡ true
unfolding clean has_prefix
is_abs-clean p h = rw (h, clean) refl

-- A path below an absolute path is absolute.
pub is_abs-join_path : (p q : Text) → is_abs p ≡ true → is_abs (join_path p q) ≡ true
unfolding join_path
is_abs-join_path [] q h = absurd (unfold is_abs has_prefix in cc)
is_abs-join_path (b ∷ p) [] h = is_abs-clean (b ∷ p) h
is_abs-join_path (b ∷ p) (c ∷ q) h =
    is_abs-clean (b ∷ p ++ slash ∷ c ∷ q) (is_abs-append (b ∷ p) (slash ∷ c ∷ q) h)
