-- ===== src/Factory.antt =====
-- include/factory.hpp: a map from keys to creator functions.
use iot_drive.Shared.{
  ℕ, ◌≡◌, List, ◌==◌, if◌then◌else◌, none, some, Outcome, ok, throws, lookup, insert, lookup-insert,
  arith,
}

abbrev pub Factory {ℓ} : Type ℓ → Type ℓ
Factory A = List (ℕ × A)

module _ {ℓ} {A : Type ℓ} where
  unfoldable pub add_ctor : ℕ → A → Factory A → Factory A
  add_ctor key func map = insert key func map

  -- `std::out_of_range` for a key that no creator was added under.
  unfoldable pub create : ℕ → Factory A → Outcome A
  create key map = elim (lookup key map) [ some func ↦ ok func | none ↦ throws ]

  -- Create finds the creator that was added last under its key, and throws for other keys exactly
  -- as it did before.
  pub create-add_ctor :
      (key k : ℕ) (func : A) (map : Factory A)
      → create k (add_ctor key func map) ≡ (if key == k then ok func else create k map)
  unfolding create add_ctor
  create-add_ctor key k func map = ground (arith, lookup-insert key k func map)
