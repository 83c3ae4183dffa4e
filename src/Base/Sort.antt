-- ===== src/Base/Sort.antt =====
-- sort.Strings, as insertion sort: the sorted list is the same for every sorting algorithm.
use dot_sync_manager.Base.Tests.{if◌then◌else◌, Bool-cases}
use dot_sync_manager.Base.Lists.{All}
use dot_sync_manager.Base.Strings.{Text, lt_text, lt_text-asym, ge_text_trans}
use mathlib.Core.Path.{◌≡◌}
use mathlib.Core.Logic.{inl, inr}
use mathlib.Core.Bool.{false}
use mathlib.Core.List.{List, [], ◌∷◌, Perm}
use mathlib.Core.List.Perm

module _ {ℓ} {A : Type ℓ} (key : A → Text) where
  -- In front of the first element that is not smaller.
  unfoldable pub insert_sorted : A → List A → List A
  insert_sorted a [] = a ∷ []
  insert_sorted a (b ∷ bs) =
      let rest = insert_sorted a bs in if lt_text (key b) (key a) then b ∷ rest else a ∷ b ∷ bs

  unfoldable pub sort : List A → List A
  unfolding insert_sorted
  sort [] = []
  sort (a ∷ as') = insert_sorted a (sort as')

  insert_sorted-perm : (a : A) (as' : List A) → Perm (insert_sorted a as') (a ∷ as')
  unfolding insert_sorted
  insert_sorted-perm a [] = Perm.refl (a ∷ [])
  insert_sorted-perm a (b ∷ bs) = elim (Bool-cases (lt_text (key b) (key a))) [
    | inl less ↦ rw less (Perm.trans (Perm.cons b (insert_sorted-perm a bs)) (Perm.swap a b bs))
    | inr more ↦ rw more (Perm.refl (a ∷ b ∷ bs))
  ]

  pub sort-perm : (as' : List A) → Perm (sort as') as'
  unfolding sort
  sort-perm [] = Perm.refl []
  sort-perm (a ∷ as') = Perm.trans (insert_sorted-perm a (sort as')) (Perm.cons a (sort-perm as'))

  -- No element has a smaller key than one in front of it.
  abbrev pub IsSorted : List A → Type 0
  IsSorted [] = Unit
  IsSorted (a ∷ as') = All (λ b. lt_text (key b) (key a) ≡ false) as' × IsSorted as'

  insert_sorted-All {κ} :
      (P : A → Type κ) (a : A) (as' : List A) → P a → All P as' → All P (insert_sorted a as')
  unfolding insert_sorted
  insert_sorted-All P a [] pa h = (pa, tt)
  insert_sorted-All P a (b ∷ bs) pa (pb, h) = elim (Bool-cases (lt_text (key b) (key a))) [
    | inl less ↦ rw less (pb, insert_sorted-All P a bs pa h)
    | inr more ↦ rw more (pa, (pb, h))
  ]

  All-above :
      (a b : A) (bs : List A)
      → lt_text (key b) (key a) ≡ false
      → All (λ c. lt_text (key c) (key b) ≡ false) bs
      → All (λ c. lt_text (key c) (key a) ≡ false) bs
  All-above a b [] h all = tt
  All-above a b (c ∷ bs) h (hc, all) =
      (ge_text_trans (key a) (key b) (key c) h hc, All-above a b bs h all)

  insert_sorted-IsSorted : (a : A) (as' : List A) → IsSorted as' → IsSorted (insert_sorted a as')
  unfolding insert_sorted
  insert_sorted-IsSorted a [] h = (tt, tt)
  insert_sorted-IsSorted a (b ∷ bs) (hb, h) = elim (Bool-cases (lt_text (key b) (key a))) [
    | inl less ↦ rw less (
      insert_sorted-All _ a bs (lt_text-asym (key b) (key a) less) hb,
      insert_sorted-IsSorted a bs h,
    )
    | inr more ↦ rw more ((more, All-above a b bs more hb), (hb, h))
  ]

  pub sort-IsSorted : (as' : List A) → IsSorted (sort as')
  unfolding sort
  sort-IsSorted [] = tt
  sort-IsSorted (a ∷ as') = insert_sorted-IsSorted a (sort as') (sort-IsSorted as')
