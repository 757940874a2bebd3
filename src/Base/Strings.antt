-- ===== src/Base/Strings.antt =====
-- Go strings as byte sequences, and the functions of packages strings and fmt that the program
-- calls on them.
use Prim.Native.Nat.{ℕ, zero, suc, ◌-◌}
use Prim.Native.Char.{code}
use Prim.Native.String.{String}
use mathlib.Core.Path.{◌≡◌, refl, ap, ◌∙◌}
use mathlib.Core.Logic.{◌↔◌, ◌≢◌}
use mathlib.Core.Bool.{Bool, true, false, ◌&&◌, ◌||◌}
use mathlib.Core.List.{List, [], ◌∷◌, ◌++◌}
use native.Mathlib.Omega.{arith}
use azure_s_sftp.Base.Tests.{eqb, if◌then◌else◌}
use azure_s_sftp.Base.Lists.{length, drop}

abbrev pub Text : Type 0
Text = List ℕ

abbrev pub codes : String → Text
codes String.[] = []
codes (String.◌∷◌ c s) = code c ∷ codes s

-- `s == t` on strings.
infix 50 ◌==◌
unfoldable pub ◌==◌ : Text → Text → Bool
[] == [] = true
[] == (_ ∷ _) = false
(_ ∷ _) == [] = false
(a ∷ s) == (b ∷ t) = eqb a b && (s == t)

pub eq_refl : (s : Text) → (s == s) ≡ true
unfolding ◌==◌
eq_refl [] = refl
eq_refl (a ∷ s) = ground (arith, eq_refl s)

pub eq_sound : (s t : Text) → (s == t) ≡ true → s ≡ t
unfolding ◌==◌
eq_sound [] [] h = refl
eq_sound [] (_ ∷ _) h = cc
eq_sound (_ ∷ _) [] h = cc
eq_sound (a ∷ s) (b ∷ t) h = ground (arith, eq_sound s t)

pub eq_iff : (s t : Text) → ((s == t) ≡ true) ↔ (s ≡ t)
eq_iff s t = (eq_sound s t, λ e. rw e (eq_refl t))

pub ne_of_eq_false : (s t : Text) → (s == t) ≡ false → s ≢ t
ne_of_eq_false s t h e = ground (arith, (eq_iff s t).1 e)

-- `strings.HasPrefix(s, p)`.
unfoldable pub has_prefix : Text → Text → Bool
has_prefix s [] = true
has_prefix [] (_ ∷ _) = false
has_prefix (a ∷ s) (b ∷ p) = eqb a b && has_prefix s p

pub has_prefix-append : (p s : Text) → has_prefix (p ++ s) p ≡ true
unfolding has_prefix
has_prefix-append [] s = refl
has_prefix-append (a ∷ p) s = ground (arith, has_prefix-append p s)

-- What stands after a prefix of that length.
pub has_prefix-drop : (s p : Text) → has_prefix s p ≡ true → s ≡ p ++ drop (length p) s
unfolding has_prefix
has_prefix-drop s [] h = refl
has_prefix-drop [] (b ∷ p) h = cc
has_prefix-drop (a ∷ s) (b ∷ p) h = ground (arith, has_prefix-drop s p)

-- The text occurs somewhere in the other: `strings.Contains(s, old)`.
unfoldable pub occurs : Text → Text → Bool
unfolding has_prefix
occurs old [] = has_prefix [] old
occurs old (c ∷ s) = has_prefix (c ∷ s) old || occurs old s

-- `strings.Replace(s, old, new, -1)` for a text `old` that is not empty: `skip` counts the bytes
-- of a match that are still to be passed over.
unfoldable pub replace_from : ℕ → Text → Text → Text → Text
unfolding has_prefix
replace_from skip old new [] = []
replace_from (suc k) old new (c ∷ s) = replace_from k old new s
replace_from zero old new (c ∷ s) = elim (has_prefix (c ∷ s) old) [
  | true ↦ new ++ replace_from (length old - 1) old new s
  | false ↦ c ∷ replace_from zero old new s
]

unfoldable pub replace_all : Text → Text → Text → Text
unfolding replace_from
replace_all s old new = replace_from 0 old new s

-- `strings.Replace(s, old, new, 1)`.
unfoldable pub replace_first : Text → Text → Text → Text
unfolding has_prefix
replace_first [] old new = if has_prefix [] old then new else []
replace_first (c ∷ s) old new =
    if has_prefix (c ∷ s) old then new ++ drop (length old) (c ∷ s) else c ∷ replace_first s old new

pub replace_from_skip :
    (p s old new : Text) → replace_from (length p) old new (p ++ s) ≡ replace_from 0 old new s
unfolding replace_from
replace_from_skip [] s old new = refl
replace_from_skip (c ∷ p) s old new = replace_from_skip p s old new

-- A text that does not hold `old` is left as it is.
pub replace_all_id : (s old new : Text) → occurs old s ≡ false → replace_all s old new ≡ s
unfolding replace_all occurs
replace_all_id [] old new h = refl
replace_all_id (c ∷ s) old new h = ground (arith, replace_all_id s old new)

-- A leading `old` becomes `new`, and the replacement goes on behind it.
pub replace_all-append :
    (a : ℕ) (p s new : Text)
    → replace_all ((a ∷ p) ++ s) (a ∷ p) new ≡ new ++ replace_all s (a ∷ p) new
unfolding replace_all
replace_all-append a p s new =
    ground (arith, has_prefix-append (a ∷ p) s, replace_from_skip p s (a ∷ p) new)

-- A leading `old` that does not occur again becomes `new`, and nothing else changes.
pub replace_all-leading :
    (a : ℕ) (p s new : Text)
    → occurs (a ∷ p) s ≡ false
    → replace_all ((a ∷ p) ++ s) (a ∷ p) new ≡ new ++ s
replace_all-leading a p s new h =
    replace_all-append a p s new ∙ ap (λ t. new ++ t) (replace_all_id s (a ∷ p) new h)

-- Neither text is a prefix of the other.
abbrev pub Apart : Text → Text → Type 0
Apart p q = (has_prefix p q ≡ false) × (has_prefix q p ≡ false)

pub Apart-append : (p q s t : Text) → Apart p q → p ++ s ≢ q ++ t
unfolding has_prefix
Apart-append p [] s t h e = cc
Apart-append [] (b ∷ q) s t h e = cc
Apart-append (a ∷ p) (b ∷ q) s t h e = ground (arith, Apart-append p q s t)
