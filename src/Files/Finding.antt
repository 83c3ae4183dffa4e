-- ===== src/Files/Finding.antt =====
-- What a path leads to.
use dot_sync_manager.Base.{
  ℕ, zero, suc, none, some, Text, eq_text_iff, ◌≡◌, refl, arith, inl, inr, Option-cases,
}
use dot_sync_manager.Base.Dict.{lookup, insert, lookup-insert}
use dot_sync_manager.Files.{
  Node, file, dir, link, FileSystem, max_links, follow, link_path, stat, read_file,
}

-- What a path leads to, when it leads to something.
pub stat-follow :
    (p : Text) (fs : FileSystem) (node : Node)
    → stat p fs ≡ some node
    → (q : Text) × (follow max_links p fs ≡ some q) × (lookup q fs ≡ some node)
unfolding stat
stat-follow p fs node found = elim (Option-cases (follow max_links p fs)) [
  | inl lost ↦ absurd (ground arith)
  | inr (q, e) ↦ (q, e, ground arith)
]

-- A new name changes no path that leads to something.
pub follow-insert_new :
    (n : ℕ) (t p q : Text) (node old : Node) (fs : FileSystem)
    → lookup p fs ≡ none
    → follow n t fs ≡ some q
    → lookup q fs ≡ some old
    → follow n t (insert p node fs) ≡ some q
unfolding follow
follow-insert_new zero t p q node old fs new leads there = absurd (ground arith)
follow-insert_new (suc n) t p q node old fs new leads there = elim (Option-cases (lookup t fs)) [
  | inl nothing ↦ absurd (ground arith)
  | inr (file c m, e) ↦ ground (arith, lookup-insert t p node fs, eq_text_iff p t)
  | inr (dir m, e) ↦ ground (arith, lookup-insert t p node fs, eq_text_iff p t)
  | inr (link u, e) ↦ ground (
    arith,
    lookup-insert t p node fs,
    eq_text_iff p t,
    follow-insert_new n (link_path t u) p q node old fs new,
  )
]

pub follow_file :
    (p : Text) (c : Text) (m : ℕ) (fs : FileSystem)
    → lookup p fs ≡ some (file c m)
    → follow max_links p fs ≡ some p
unfolding follow
follow_file p c m fs e = rw (e, follow) refl

pub follow_free : (p : Text) (fs : FileSystem) → lookup p fs ≡ none → follow max_links p fs ≡ some p
unfolding follow
follow_free p fs e = rw (e, follow) refl

pub stat_at :
    (p c : Text) (m : ℕ) (fs : FileSystem)
    → lookup p fs ≡ some (file c m)
    → stat p fs ≡ some (file c m)
unfolding stat
stat_at p c m fs at = rw (follow_file p c m fs at, stat) at

pub read_file_at :
    (p c : Text) (m : ℕ) (fs : FileSystem)
    → lookup p fs ≡ some (file c m)
    → read_file p fs ≡ some (c, m)
unfolding read_file stat
read_file_at p c m fs at = rw (follow_file p c m fs at, read_file, stat) (rw at refl)
