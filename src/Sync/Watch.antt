-- ===== src/Sync/Watch.antt =====
-- internal/sync/service.go: watchRecursiveWithWatcher, with filepath.Walk over a directory tree.
use dot_sync_manager.Base.{
  List, [], ◌∷◌, ◌++◌, Option, none, some, Bool, true, false, not, ◌≡◌, refl, arith, Text, codes,
  eq_text, if◌then◌else◌, ◌||◌, ◌↔◌, ◌⊎◌, inl, inr, Bool-cases, Option-cases,
}
use mathlib.Core.Path.{subst}
use mathlib.Core.List.{Memᴰ}
use mathlib.Core.List.Memᴰ
use dot_sync_manager.Base.Paths.{base_name, join_path}

-- What lies below a path: a file, or a directory, which can be read or not, with its entries in order.
mutual
  pub data Tree : Type 0 where
    file_node : Tree
    dir_node : Bool → Entries → Tree

  pub data Entries : Type 0 where
    no_entries : Entries
    entry : Text → Tree → Entries → Entries

module _ (matches : Text → Bool) where
  unfoldable pub is_skipped : Text → Bool
  unfolding base_name
  is_skipped path = eq_text (base_name path) (codes ".git") || matches path

  -- Walk with the callback of watchRecursiveWithWatcher: the paths given to watcher.Add, whose failures
  -- are only logged, or `none` for an error. Walk reads a directory before it calls the callback, so an
  -- unreadable one ends the walk even where it would be skipped.
  unfoldable mutual
    unfolding is_skipped

    pub watch_tree : Text → Tree → Option (List Text)
    watch_tree path file_node = some []
    watch_tree path (dir_node readable entries) =
        let below = watch_entries path entries in
        if not readable
        then none
        else if is_skipped path
        then some []
        else elim below [ none ↦ none | some ws ↦ some (path ∷ ws) ]

    pub watch_entries : Text → Entries → Option (List Text)
    watch_entries path no_entries = some []
    watch_entries path (entry name t rest) =
        let here = watch_tree (join_path path name) t in
        let more = watch_entries path rest in
        elim here [ none ↦ none | some ws ↦ elim more [ none ↦ none | some vs ↦ some (ws ++ vs) ] ]

  -- A directory that is not skipped, below directories that are not skipped.
  mutual
    pub data IsShown : Text → Tree → Text → Type 0 where
      here :
          {path : Text} {readable : Bool} {es : Entries}
          → is_skipped path ≡ false
          → IsShown path (dir_node readable es) path
      below :
          {path p : Text} {readable : Bool} {es : Entries}
          → is_skipped path ≡ false
          → IsShownIn path es p
          → IsShown path (dir_node readable es) p

    pub data IsShownIn : Text → Entries → Text → Type 0 where
      first :
          {path name p : Text} {t : Tree} {es : Entries}
          → IsShown (join_path path name) t p
          → IsShownIn path (entry name t es) p
      later :
          {path name p : Text} {t : Tree} {es : Entries}
          → IsShownIn path es p
          → IsShownIn path (entry name t es) p

  -- What a walk that ends without an error has collected from a directory and from its entries.
  split_dir :
      (path : Text) (readable : Bool) (es : Entries) (ws : List Text)
      → watch_tree path (dir_node readable es) ≡ some ws
      → ((is_skipped path ≡ true) × (ws ≡ []))
        ⊎ ((vs : List Text) × (is_skipped path ≡ false)
            × (watch_entries path es ≡ some vs)
            × (ws ≡ path ∷ vs))
  unfolding watch_tree
  split_dir path readable es ws done = elim (Option-cases (watch_entries path es)) [
    | inl failed ↦ ground arith
    | inr (vs, e) ↦ elim (Bool-cases (is_skipped path)) [
      | inl skipped ↦ inl (skipped, ground arith)
      | inr shown ↦ inr (vs, shown, e, ground arith)
    ]
  ]

  split_entry :
      (path name : Text) (t : Tree) (es : Entries) (ws : List Text)
      → watch_entries path (entry name t es) ≡ some ws
      → (xs : List Text) × (ys : List Text) × (watch_tree (join_path path name) t ≡ some xs)
        × (watch_entries path es ≡ some ys)
        × (ws ≡ xs ++ ys)
  unfolding watch_tree
  split_entry path name t es ws done = elim (Option-cases (watch_tree (join_path path name) t)) [
    | inl failed ↦ absurd (ground arith)
    | inr (xs, e) ↦ elim (Option-cases (watch_entries path es)) [
      | inl failed ↦ absurd (ground arith)
      | inr (ys, e') ↦ (xs, ys, e, e', ground arith)
    ]
  ]

  mutual
    watch_tree-complete :
        (path : Text) (t : Tree) (ws : List Text) (p : Text)
        → watch_tree path t ≡ some ws
        → IsShown path t p
        → Memᴰ p ws
    watch_tree-complete path file_node ws p done shown = elim shown [ ]
    watch_tree-complete path (dir_node readable es) ws p done (here shown) =
        elim (split_dir path readable es ws done) [
          | inl (skipped, _) ↦ absurd (ground arith)
          | inr (vs, _, _, e) ↦ rw e (Memᴰ.head refl)
        ]
    watch_tree-complete path (dir_node readable es) ws p done (below shown inside) =
        elim (split_dir path readable es ws done) [
          | inl (skipped, _) ↦ absurd (ground arith)
          | inr (vs, _, found, e) ↦
              rw e (Memᴰ.tail (watch_entries-complete path es vs p found inside))
        ]

    watch_entries-complete :
        (path : Text) (es : Entries) (ws : List Text) (p : Text)
        → watch_entries path es ≡ some ws
        → IsShownIn path es p
        → Memᴰ p ws
    watch_entries-complete path no_entries ws p done shown = elim shown [ ]
    watch_entries-complete path (entry name t es) ws p done (first shown) =
        let (xs, ys, here', _, e) = split_entry path name t es ws done in
        rw e (Memᴰ.append_left ys (watch_tree-complete (join_path path name) t xs p here' shown))
    watch_entries-complete path (entry name t es) ws p done (later shown) =
        let (xs, ys, _, more, e) = split_entry path name t es ws done in
        rw e (Memᴰ.append_right xs (watch_entries-complete path es ys p more shown))

  mutual
    unfolding watch_tree

    watch_tree_sound :
        (path : Text) (t : Tree) (ws : List Text) (p : Text)
        → watch_tree path t ≡ some ws
        → Memᴰ p ws
        → IsShown path t p
    watch_tree_sound path file_node ws p done mem =
        let e : ws ≡ [] = ground arith in absurd (Memᴰ.not-nil (subst (λ l. Memᴰ p l) e mem))
    watch_tree_sound path (dir_node readable es) ws p done mem =
        elim (split_dir path readable es ws done) [
          | inl (_, e) ↦ absurd (Memᴰ.not-nil (subst (λ l. Memᴰ p l) e mem))
          | inr (vs, shown, found, e) ↦ elim (Memᴰ.cases_cons (subst (λ l. Memᴰ p l) e mem)) [
            | inl same ↦ rw same (here shown)
            | inr inside ↦ below shown (watch_entries_sound path es vs p found inside)
          ]
        ]

    watch_entries_sound :
        (path : Text) (es : Entries) (ws : List Text) (p : Text)
        → watch_entries path es ≡ some ws
        → Memᴰ p ws
        → IsShownIn path es p
    watch_entries_sound path no_entries ws p done mem =
        let e : ws ≡ [] = ground arith in absurd (Memᴰ.not-nil (subst (λ l. Memᴰ p l) e mem))
    watch_entries_sound path (entry name t es) ws p done mem =
        let (xs, ys, here', more, e) = split_entry path name t es ws done in
        elim (Memᴰ.append_cases xs (subst (λ l. Memᴰ p l) e mem)) [
          | inl inside ↦ first (watch_tree_sound (join_path path name) t xs p here' inside)
          | inr inside ↦ later (watch_entries_sound path es ys p more inside)
        ]

  -- A walk that ends without an error has watched exactly the directories that are neither .git nor
  -- ignored and lie only below such directories.
  pub watch_tree_exact :
      (path : Text) (t : Tree) (ws : List Text) (p : Text)
      → watch_tree path t ≡ some ws
      → Memᴰ p ws ↔ IsShown path t p
  watch_tree_exact path t ws p done =
      (watch_tree_sound path t ws p done, watch_tree-complete path t ws p done)
