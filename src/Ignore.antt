-- ===== src/Ignore.antt =====
-- internal/ignore/parser.go: the patterns of an ignore file, and the paths that they match.
-- `fp_match` is filepath.Match, where a malformed pattern matches nothing, and `trim` strings.TrimSpace.
-- A result `none` is a slice out of range, which panics.
pub mod Deciding
pub mod Dirs
pub mod Middle
use dot_sync_manager.Base.{
  ℕ, suc, ◌+◌, ◌-◌, List, [], ◌∷◌, ◌++◌, Option, none, some, Bool, true, false, not, ◌&&◌, ◌||◌,
  if◌then◌else◌, ltb, Text, codes, is_empty, eq_text, has_prefix, has_suffix, contains,
  contains_byte, length, take, drop, map,
}
use dot_sync_manager.Base.Paths.{slash, is_abs, clean, split_slash, join_slash}

pub record Pattern : Type 0 where
  pub raw : Text
  pub negated : Bool
  pub dir_only : Bool

pub record Parser : Type 0 where
  pub patterns : List Pattern
  pub root : Text

abbrev slash_text : Text
slash_text = slash ∷ []

-- parsePattern: a leading `!` negates, and a trailing slash asks for a directory.
unfoldable pub parse_pattern : Text → Pattern
unfolding has_prefix has_suffix
parse_pattern line =
    let negated = has_prefix line (codes "!") in
    let body = if negated then drop 1 line else line in
    let dir_only = has_suffix body slash_text in
    record {
      raw = if dir_only then take (length body - 1) body else body;
      negated = negated;
      dir_only = dir_only;
    }

-- The loop of LoadFromFile over the lines of the file.
unfoldable pub load_lines : (Text → Text) → List Text → List Pattern
unfolding parse_pattern
load_lines trim [] = []
load_lines trim (text ∷ rest) =
    let line = trim text in
    let patterns = load_lines trim rest in
    if is_empty line || has_prefix line (codes "#") then patterns else parse_pattern line ∷ patterns

unfoldable pub load_from_lines : (Text → Text) → List Text → Parser → Parser
unfolding load_lines
load_from_lines trim lines p = record p { patterns = p.patterns ++ load_lines trim lines }

unfoldable pub clear : Parser → Parser
clear p = record p { patterns = [] }

-- strings.Index
unfoldable pub index : Text → Text → Option ℕ
unfolding has_prefix
index [] t = if is_empty t then some 0 else none
index (a ∷ s) t =
    let rest = index s t in
    if has_prefix (a ∷ s) t then some 0 else elim rest [ none ↦ none | some i ↦ some (suc i) ]

-- The last part of matchDoubleAsterisk, for dir/**/file.
unfoldable pub middle_match : Text → Text → Text → Option Bool
unfolding eq_text has_prefix has_suffix
middle_match prefix suffix path =
    if not (has_prefix path (prefix ++ slash_text)) && not (eq_text path prefix)
    then some false
    else if is_empty suffix
    then some true
    else if not (has_suffix path suffix)
    then some false
    else if ltb (length path - length suffix) (length prefix)
    then none
    else some (accepts (drop (length prefix) (take (length path - length suffix) path)))
  where
    accepts : Text → Bool
    accepts middle =
        is_empty middle
        || (has_prefix middle slash_text && has_suffix middle slash_text)
        || eq_text middle slash_text
        || has_prefix middle slash_text

unfoldable pub has_part : (Text → Bool) → List Text → Bool
has_part test [] = false
has_part test (part ∷ parts) = test part || has_part test parts

unfoldable pub solid_parts : List Text → List Text
solid_parts [] = []
solid_parts (part ∷ parts) =
    let rest = solid_parts parts in if is_empty part then rest else part ∷ rest

unfoldable pub rel_parts : List Text → List Text → List Text
unfolding eq_text
rel_parts [] target = target
rel_parts (b ∷ bs) [] = codes ".." ∷ rel_parts bs []
rel_parts (b ∷ bs) (t ∷ ts) =
    let rest = rel_parts bs ts in
    if eq_text b t then rest else map (λ _. codes "..") (b ∷ bs) ++ t ∷ ts

-- filepath.Rel, of absolute paths
unfoldable pub rel_path : Text → Text → Text
unfolding clean split_slash join_slash solid_parts rel_parts
rel_path base target =
    let rel = join_slash (
      rel_parts (solid_parts (split_slash (clean base)))
        (solid_parts (split_slash (clean target)))) in
    if is_empty rel then codes "." else rel

-- The first lines of Match: the path below the root, or `none` outside of it. `abs_root` is what
-- filepath.Abs answers for the root.
unfoldable pub relative : Text → Option Text → Text → Option Text
unfolding is_abs rel_path clean has_prefix eq_text
relative root abs_root path =
    if is_empty root
    then some path
    else if is_abs path
    then elim abs_root [ none ↦ some path | some base ↦ below (rel_path base path) ]
    else let c = clean path in
      if has_prefix c (codes "../") || eq_text c (codes "..") then none else some c
  where
    below : Text → Option Text
    below rel = if eq_text rel (codes ".") || has_prefix rel (codes "..") then none else some rel

module _ (fp_match : Text → Text → Bool) where
  -- The first part of matchDoubleAsterisk, for **/name.
  unfoldable pub leading_match : Text → Text → Bool
  unfolding has_suffix split_slash has_part
  leading_match suffix path =
      let before = take (length path - length suffix) path in
      (has_suffix path suffix && (is_empty before || has_suffix before slash_text))
      || has_part (fp_match suffix) (split_slash path)

  unfoldable pub match_double_asterisk : Text → Text → Option Bool
  unfolding has_prefix has_suffix eq_text leading_match middle_match index
  match_double_asterisk pattern path =
      let prefix = take (length pattern - 3) pattern in
      if has_prefix pattern (codes "**/") && leading_match (drop 3 pattern) path
      then some true
      else if has_suffix pattern (codes "/**")
          && (eq_text path prefix || has_prefix path (prefix ++ slash_text))
      then some true
      else elim (index pattern (codes "/**/")) [
        | none ↦ some false
        | some i ↦ middle_match (take i pattern) (drop (i + 4) pattern) path
      ]

  -- The branch of matchPattern for a pattern that asks for a directory.
  unfoldable pub match_dir : Text → Text → Bool
  unfolding eq_text has_prefix contains_byte split_slash has_part
  match_dir pattern path =
      eq_text path pattern
      || has_prefix path (pattern ++ slash_text)
      || (not (contains_byte pattern slash)
          && has_part (λ part. eq_text part pattern) (split_slash path))

  -- The loop of matchMultiPattern.
  unfoldable pub match_each : List Text → List Text → Bool
  unfolding eq_text
  match_each [] parts = true
  match_each (p ∷ ps) [] = false
  match_each (p ∷ ps) (part ∷ parts) =
      (eq_text p (codes "**") || fp_match p part) && match_each ps parts

  unfoldable pub match_multi_pattern : List Text → List Text → Bool
  unfolding match_each
  match_multi_pattern ps parts =
      if ltb (length parts) (length ps)
      then false
      else match_each ps (drop (length parts - length ps) parts)

  unfoldable pub match_parts : List Text → List Text → Bool
  unfolding has_part match_multi_pattern
  match_parts (p ∷ []) parts = has_part (fp_match p) parts
  match_parts [] parts = match_multi_pattern [] parts
  match_parts (p ∷ q ∷ ps) parts = match_multi_pattern (p ∷ q ∷ ps) parts

  unfoldable pub match_plain : Text → Text → Bool
  unfolding contains_byte split_slash has_part match_parts
  match_plain pattern path =
      (not (contains_byte pattern slash)
        && (has_part (fp_match pattern) (split_slash path) || fp_match pattern path))
      || match_parts (split_slash pattern) (split_slash path)

  unfoldable pub match_pattern : Pattern → Text → Option Bool
  unfolding contains match_double_asterisk match_dir match_plain
  match_pattern p path =
      if contains p.raw (codes "**")
      then match_double_asterisk p.raw path
      else some (if p.dir_only then match_dir p.raw path else match_plain p.raw path)

  -- The loop of Match.
  unfoldable pub match_all : List Pattern → Text → Bool → Option Bool
  unfolding match_pattern
  match_all [] path ignored = some ignored
  match_all (p ∷ ps) path ignored = elim (match_pattern p path) [
    | none ↦ none
    | some matched ↦ match_all ps path (if matched then not p.negated else ignored)
  ]

  -- Match below the root, by the path relative to it.
  unfoldable pub match_path : Option Text → Parser → Text → Option Bool
  unfolding match_all relative eq_text
  match_path abs_root p path = elim (relative p.root abs_root path) [
    | none ↦ some false
    | some rel ↦ match_all p.patterns (if eq_text rel (codes ".") then [] else rel) false
  ]
