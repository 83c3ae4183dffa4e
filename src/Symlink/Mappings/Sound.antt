-- ===== src/Symlink/Mappings/Sound.antt =====
-- What AddMapping, UpdateMapping and RemoveMapping keep true of the mappings.
use dot_sync_manager.Base.{
  List, [], ◌∷◌, some, Bool, true, false, Text, codes, eq_text, eq_text_iff, is_empty, has_prefix,
  ◌≡◌, arith, ◌⊎◌, inl, inr, Bool-cases,
}
use dot_sync_manager.Base.Dict.{
  Dict, lookup, insert, erase, lookup-insert, lookup-erase, erase-insert_new,
}
use dot_sync_manager.Base.Paths.{is_abs, clean}
use dot_sync_manager.Base.Result.{ok}
use dot_sync_manager.Ignore.{rel_path}
use dot_sync_manager.Symlink.Mappings.{
  Mapped, check_target_conflict, validate_mapping, add_mapping, update_mapping, remove_mapping,
}

-- What ValidateMapping asks of a mapping.
pub record IsMapping (root repo_path target : Text) : Type 0 where
  pub named : is_empty repo_path ≡ false
  pub relative : is_abs repo_path ≡ false
  pub stays : has_prefix (clean repo_path) (codes "..") ≡ false
  pub absolute : is_abs target ≡ true
  pub outside : is_abs root ≡ true → has_prefix (rel_path root target) (codes "..") ≡ true

-- Every mapping is valid, and no target is mapped twice.
pub record IsSound (root : Text) (d : Dict Text) : Type 0 where
  pub each : (r t : Text) → lookup r d ≡ some t → IsMapping root r t
  pub once : (r r' t : Text) → lookup r d ≡ some t → lookup r' d ≡ some t → r ≡ r'

validate_mapping_sound :
    (root repo_path target : Text)
    → validate_mapping root repo_path target ≡ ok tt
    → IsMapping root repo_path target
unfolding validate_mapping
validate_mapping_sound root repo_path target done = record {
  named = ground arith;
  relative = ground arith;
  stays = ground arith;
  absolute = ground arith;
  outside = λ rooted. ground arith;
}

conflict_only :
    (target exclude r : Text) (d : Dict Text)
    → check_target_conflict target exclude d ≡ false
    → lookup r d ≡ some target
    → r ≡ exclude
unfolding check_target_conflict lookup
conflict_only target exclude r [] free found = absurd (cc)
conflict_only target exclude r ((repo, t) ∷ d) free found = elim (Bool-cases (eq_text repo r)) [
  | inl here ↦ ground (arith, eq_text_iff repo r, eq_text_iff repo exclude, eq_text_iff t target)
  | inr there ↦ conflict_only target exclude r d (ground arith) (ground arith)
]

insert-IsSound :
    (root r t : Text) (d : Dict Text)
    → IsSound root d
    → IsMapping root r t
    → ((q : Text) → lookup q d ≡ some t → q ≡ r)
    → IsSound root (insert r t d)
insert-IsSound root r t d v new free = record {
  each = λ q u found. elim (Bool-cases (eq_text r q)) [
    | inl same ↦
        let e : r ≡ q = ground (arith, eq_text_iff r q) in
        let e' : t ≡ u = ground (arith, lookup-insert q r t d) in rw (← e, ← e') new
    | inr other ↦ v.each q u (ground (arith, lookup-insert q r t d))
  ];
  once = λ q q' u found found'. ground (
    arith,
    lookup-insert q r t d,
    lookup-insert q' r t d,
    eq_text_iff r q,
    eq_text_iff r q',
    free q,
    free q',
    v.once q q' u,
  );
}

erase-IsSound : (root r : Text) (d : Dict Text) → IsSound root d → IsSound root (erase r d)
erase-IsSound root r d v = record {
  each = λ q u found. v.each q u (ground (arith, lookup-erase q r d));
  once = λ q q' u found found'.
      v.once q q' u (ground (arith, lookup-erase q r d)) (ground (arith, lookup-erase q' r d));
}

-- The mappings after AddMapping: those before, also where the save fails, or one more that passed all tests.
add_mapping_cases :
    (saves : Bool) (root r t : Text) (m : Mapped)
    → ((add_mapping saves root r t m).1.mappings ≡ m.mappings)
      ⊎ (((add_mapping saves root r t m).1.mappings ≡ insert r t m.mappings)
          × (validate_mapping root r t ≡ ok tt)
          × (check_target_conflict t [] m.mappings ≡ false))
unfolding add_mapping
add_mapping_cases saves root r t m = ground (arith, erase-insert_new r t m.mappings)

update_mapping_cases :
    (saves : Bool) (root r t : Text) (m : Mapped)
    → ((update_mapping saves root r t m).1.mappings ≡ m.mappings)
      ⊎ (((update_mapping saves root r t m).1.mappings ≡ insert r t m.mappings)
          × (validate_mapping root r t ≡ ok tt)
          × (check_target_conflict t r m.mappings ≡ false))
unfolding update_mapping
update_mapping_cases saves root r t m = ground arith

remove_mapping_cases :
    (saves : Bool) (r : Text) (m : Mapped)
    → ((remove_mapping saves r m).1.mappings ≡ m.mappings)
      ⊎ ((remove_mapping saves r m).1.mappings ≡ erase r m.mappings)
unfolding remove_mapping
remove_mapping_cases saves r m = ground arith

-- The calls of the three methods, with what their save does.
pub data MappingCall : Type 0 where
  add update : Bool → Text → Text → MappingCall
  delete : Bool → Text → MappingCall

unfoldable pub run_call : Text → MappingCall → Mapped → Mapped
unfolding add_mapping update_mapping remove_mapping
run_call root (add saves r t) m = (add_mapping saves root r t m).1
run_call root (update saves r t) m = (update_mapping saves root r t m).1
run_call root (delete saves r) m = (remove_mapping saves r m).1

unfoldable pub run_calls : Text → List MappingCall → Mapped → Mapped
unfolding run_call
run_calls root [] m = m
run_calls root (call ∷ calls) m = run_calls root calls (run_call root call m)

run_call-IsSound :
    (root : Text) (call : MappingCall) (m : Mapped)
    → IsSound root m.mappings
    → IsSound root (run_call root call m).mappings
unfolding run_call
run_call-IsSound root (add saves r t) m v = elim (add_mapping_cases saves root r t m) [
  | inl kept ↦ rw kept v
  | inr (e, valid, free) ↦
      let new = validate_mapping_sound root r t valid in
      rw e (
        insert-IsSound root r t m.mappings v new (λ q found.
          absurd
            (ground (arith, conflict_only t [] q m.mappings free found, (v.each q t found).named))))
]
run_call-IsSound root (update saves r t) m v = elim (update_mapping_cases saves root r t m) [
  | inl kept ↦ rw kept v
  | inr (e, valid, free) ↦ rw e (
      insert-IsSound root r t m.mappings v (validate_mapping_sound root r t valid)
        (λ q found. conflict_only t r q m.mappings free found))
]
run_call-IsSound root (delete saves r) m v = elim (remove_mapping_cases saves r m) [
  | inl kept ↦ rw kept v
  | inr e ↦ rw e (erase-IsSound root r m.mappings v)
]

-- Any calls of AddMapping, UpdateMapping and RemoveMapping, whether their saves work or not, keep every
-- mapping in memory valid and no target mapped twice.
pub run_calls-IsSound :
    (root : Text) (calls : List MappingCall) (m : Mapped)
    → IsSound root m.mappings
    → IsSound root (run_calls root calls m).mappings
unfolding run_calls
run_calls-IsSound root [] m v = v
run_calls-IsSound root (call ∷ calls) m v =
    run_calls-IsSound root calls (run_call root call m) (run_call-IsSound root call m v)
