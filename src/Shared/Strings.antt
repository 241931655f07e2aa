-- ===== src/Shared/Strings.antt =====
-- Texts as lists of their bytes, which are ASCII.
use Prim.Native.Nat.{ℕ}
use Prim.Native.Char.{code}
use Prim.Native.String.{String}
use mathlib.Core.Path.{◌≡◌, refl, ap₂}
use mathlib.Core.Bool.{Bool, true, false, ◌&&◌}
use mathlib.Core.List.{List, [], ◌∷◌}
use native.Mathlib.Omega.{arith}
use iot_drive.Shared.Tests.{◌==◌, ==_refl}

abbrev pub codes : String → List ℕ
codes String.[] = []
codes (String.◌∷◌ letter text) = code letter ∷ codes text

-- `strcmp(a, b) == 0` on the bytes before the zero.
abbrev pub same_text : List ℕ → List ℕ → Bool
same_text [] [] = true
same_text [] (b ∷ bs) = false
same_text (a ∷ xs) [] = false
same_text (a ∷ xs) (b ∷ bs) = a == b && same_text xs bs

pub same_text_refl : (s : List ℕ) → same_text s s ≡ true
same_text_refl [] = refl
same_text_refl (a ∷ xs) = ground (arith, ==_refl a, same_text_refl xs)

pub same_text-eq : (s t : List ℕ) → same_text s t ≡ true → s ≡ t
same_text-eq [] [] h = refl
same_text-eq [] (b ∷ bs) h = absurd cc
same_text-eq (a ∷ xs) [] h = absurd cc
same_text-eq (a ∷ xs) (b ∷ bs) h = ap₂ ◌∷◌ (ground arith) (same_text-eq xs bs (ground arith))
