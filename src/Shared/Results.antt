-- ===== src/Shared/Results.antt =====
-- How a piece of the C++ code ends: with a value, by an exception, or in undefined behaviour.

pub data Outcome {ℓ} (A : Type ℓ) : Type ℓ where
  ok : A → Outcome A
  -- A C++ exception that nothing on the way catches.
  throws : Outcome A
  -- An access outside of an object, or through a null pointer.
  fault : Outcome A

abbrev pub bind {ℓ κ} : {A : Type ℓ} {B : Type κ} → Outcome A → (A → Outcome B) → Outcome B
bind (ok a) f = f a
bind throws f = throws
bind fault f = fault
