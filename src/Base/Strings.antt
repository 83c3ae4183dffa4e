-- ===== src/Base/Strings.antt =====
-- Go strings and byte slices as lists of byte values, with the operations of package strings.
use Prim.Native.Nat.{ℕ, ◌-◌}
use Prim.Native.Char.{code}
use Prim.Native.String.{String}
use mathlib.Core.Path.{◌≡◌, refl}
use mathlib.Core.Logic.{◌↔◌}
use mathlib.Core.Bool.{Bool, true, false, ◌&&◌, ◌||◌}
use mathlib.Core.List.{List, [], ◌∷◌, ◌++◌}
use native.Mathlib.Omega.{arith}
use dot_sync_manager.Base.Tests.{◌==◌, ltb, if◌then◌else◌}
use dot_sync_manager.Base.Lists.{length, drop}

abbrev pub Text : Type 0
Text = List ℕ

-- The code points of a literal. These are its bytes, since the literals here are ASCII.
abbrev pub codes : String → Text
codes String.[] = []
codes (String.◌∷◌ c s) = code c ∷ codes s

unfoldable pub eq_text : Text → Text → Bool
eq_text [] [] = true
eq_text [] (_ ∷ _) = false
eq_text (_ ∷ _) [] = false
eq_text (a ∷ s) (b ∷ t) = (a == b) && eq_text s t

pub eq_text_refl : (s : Text) → eq_text s s ≡ true
unfolding eq_text
eq_text_refl [] = refl
eq_text_refl (a ∷ s) = ground (arith, eq_text_refl s)

eq_text_sound : (s t : Text) → eq_text s t ≡ true → s ≡ t
unfolding eq_text
eq_text_sound [] [] h = refl
eq_text_sound [] (_ ∷ _) h = cc
eq_text_sound (_ ∷ _) [] h = cc
eq_text_sound (a ∷ s) (b ∷ t) h = ground (arith, eq_text_sound s t)

pub eq_text_iff : (s t : Text) → (eq_text s t ≡ true) ↔ (s ≡ t)
eq_text_iff s t = (eq_text_sound s t, λ e. rw e (eq_text_refl t))

-- Go's `<` on strings: by the first byte that differs, a proper prefix first.
unfoldable pub lt_text : Text → Text → Bool
lt_text [] [] = false
lt_text [] (_ ∷ _) = true
lt_text (_ ∷ _) [] = false
lt_text (a ∷ s) (b ∷ t) = ltb a b || ((a == b) && lt_text s t)

unfoldable pub has_prefix : Text → Text → Bool
has_prefix s [] = true
has_prefix [] (_ ∷ _) = false
has_prefix (a ∷ s) (b ∷ t) = (a == b) && has_prefix s t

pub has_prefix-append : (p s : Text) → has_prefix (p ++ s) p ≡ true
unfolding has_prefix
has_prefix-append [] s = refl
has_prefix-append (a ∷ p) s = ground (arith, has_prefix-append p s)

pub has_prefix-split : (s p : Text) → has_prefix s p ≡ true → (rest : Text) × (s ≡ p ++ rest)
unfolding has_prefix
has_prefix-split s [] h = (s, refl)
has_prefix-split [] (_ ∷ _) h = absurd (cc)
has_prefix-split (a ∷ s) (b ∷ p) h =
    let (rest, e) = has_prefix-split s p (ground arith) in (rest, ground arith)

-- `s` ends in `t`: the bytes from position len(s) - len(t) on are `t`.
unfoldable pub has_suffix : Text → Text → Bool
unfolding eq_text
has_suffix s t =
    if ltb (length s) (length t) then false else eq_text (drop (length s - length t) s) t

unfoldable pub contains_byte : Text → ℕ → Bool
contains_byte [] b = false
contains_byte (a ∷ s) b = (a == b) || contains_byte s b

-- strings.Contains.
unfoldable pub contains : Text → Text → Bool
unfolding has_prefix
contains [] t = has_prefix [] t
contains (a ∷ s) t = has_prefix (a ∷ s) t || contains s t

-- `<` is a strict total order.
pub lt_text-asym : (s t : Text) → lt_text s t ≡ true → lt_text t s ≡ false
unfolding lt_text
lt_text-asym [] [] h = refl
lt_text-asym [] (b ∷ t) h = refl
lt_text-asym (a ∷ s) [] h = cc
lt_text-asym (a ∷ s) (b ∷ t) h = ground (arith, lt_text-asym s t)

pub ge_text_trans : (s t u : Text) → lt_text t s ≡ false → lt_text u t ≡ false → lt_text u s ≡ false
unfolding lt_text
ge_text_trans [] [] [] h k = refl
ge_text_trans [] [] (c ∷ u) h k = refl
ge_text_trans [] (b ∷ t) [] h k = cc
ge_text_trans [] (b ∷ t) (c ∷ u) h k = refl
ge_text_trans (a ∷ s) [] u h k = cc
ge_text_trans (a ∷ s) (b ∷ t) [] h k = cc
ge_text_trans (a ∷ s) (b ∷ t) (c ∷ u) h k = ground (arith, ge_text_trans s t u)

pub eq_of_not_lt : (s t : Text) → lt_text s t ≡ false → lt_text t s ≡ false → s ≡ t
unfolding lt_text
eq_of_not_lt [] [] h k = refl
eq_of_not_lt [] (b ∷ t) h k = cc
eq_of_not_lt (a ∷ s) [] h k = cc
eq_of_not_lt (a ∷ s) (b ∷ t) h k = ground (arith, eq_of_not_lt s t)
