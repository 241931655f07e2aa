-- ===== src/Shared/Dict.antt =====
-- `std::map` and `std::unordered_map` with a number for a key, as association lists.
use Prim.Native.Nat.{ℕ}
use mathlib.Core.Path.{◌≡◌}
use mathlib.Core.List.{List, [], ◌∷◌}
use mathlib.Core.Option.{Option, none, some}
use native.Mathlib.Omega.{arith}
use iot_drive.Shared.Tests.{◌==◌, if◌then◌else◌}

abbrev pub Dict {ℓ} : Type ℓ → Type ℓ
Dict V = List (ℕ × V)

module _ {ℓ} {V : Type ℓ} where
  unfoldable pub lookup : ℕ → Dict V → Option V
  lookup key [] = none
  lookup key (entry ∷ rest) = if key == entry.0 then some (entry.1) else lookup key rest

  -- `m[key] = value`.
  unfoldable pub insert : ℕ → V → Dict V → Dict V
  insert key value [] = (key, value) ∷ []
  insert key value (entry ∷ rest) =
      if key == entry.0 then (key, value) ∷ rest else entry ∷ insert key value rest

  -- `m.erase(key)`.
  unfoldable pub erase : ℕ → Dict V → Dict V
  erase key [] = []
  erase key (entry ∷ rest) = if key == entry.0 then erase key rest else entry ∷ erase key rest

  pub lookup-insert :
      (key other : ℕ) (value : V) (dict : Dict V)
      → lookup other (insert key value dict)
        ≡ (if key == other then some value else lookup other dict)
  unfolding lookup insert
  lookup-insert key other value [] = ground arith
  lookup-insert key other value (entry ∷ rest) = ground (arith, lookup-insert key other value rest)

  pub lookup-erase :
      (key other : ℕ) (dict : Dict V)
      → lookup other (erase key dict) ≡ (if key == other then none else lookup other dict)
  unfolding lookup erase
  lookup-erase key other [] = ground arith
  lookup-erase key other (entry ∷ rest) = ground (arith, lookup-erase key other rest)
