-- ===== src/Buffer.antt =====
-- The `char* buffer` that ToBuffer and FromBuffer (src/message.cpp) walk along: the bytes before
-- the pointer, the bytes from it on, and stores and loads that fault outside of the allocation.
-- Numbers lie in memory with the lowest byte first, as on the machines that the code runs on.
pub mod Stores
pub mod Loads
use iot_drive.Shared.{
  ℕ, zero, suc, ◌+◌, ◌*◌, ◌/◌, ◌%◌, ◌<◌, ◌≡◌, List, [], ◌∷◌, ◌++◌, Option, none, some, Outcome, ok,
  true, false, throws, fault, arith, leb, if◌then◌else◌, All, length, take, drop,
}

pub record Cursor : Type 0 where
  pub before : List ℕ
  pub rest : List ℕ

abbrev pub M : Type 0 → Type 0
M A = Cursor → Outcome (A × Cursor)

abbrev pub pure : {A : Type 0} → A → M A
pure a c = ok (a, c)

infixl 5 ◌>>=◌ ◌>>◌
abbrev pub ◌>>=◌ : {A B : Type 0} → M A → (A → M B) → M B
◌>>=◌ m f c = elim (m c) [ ok (a, c') ↦ f a c' | throws ↦ throws | fault ↦ fault ]

abbrev pub ◌>>◌ : {A B : Type 0} → M A → M B → M B
m >> k = m >>= λ _. k

-- The whole allocation.
abbrev pub contents : Cursor → List ℕ
contents c = c.before ++ c.rest

abbrev pub at_start : List ℕ → Cursor
at_start bs = record { before = []; rest = bs }

-- A store at the pointer, and the step of the pointer behind it.
unfoldable pub put : List ℕ → M (Unit {0})
put bs c = elim (leb (length bs) (length c.rest)) [
  | true ↦ ok (tt, record { before = c.before ++ bs; rest = drop (length bs) c.rest })
  | false ↦ fault
]

-- A store at the pointer that leaves the pointer where it is.
unfoldable pub put_here : List ℕ → M (Unit {0})
put_here bs c = elim (leb (length bs) (length c.rest)) [
  | true ↦ ok (tt, record c { rest = bs ++ drop (length bs) c.rest })
  | false ↦ fault
]

-- `buffer += n`, with nothing stored.
unfoldable pub skip : ℕ → M (Unit {0})
skip n c = elim (leb n (length c.rest)) [
  | true ↦ ok (tt, record { before = c.before ++ take n c.rest; rest = drop n c.rest })
  | false ↦ fault
]

-- A load of `n` bytes, and the step of the pointer behind them.
unfoldable pub get : ℕ → M (List ℕ)
get n c = elim (leb n (length c.rest)) [
  | true ↦ ok (take n c.rest, record { before = c.before ++ take n c.rest; rest = drop n c.rest })
  | false ↦ fault
]

-- What `walk` went over, from `start = buffer` to `buffer`, beside its result.
unfoldable pub spanned : {A : Type 0} → M A → M (List ℕ × A)
spanned walk c = elim (walk c) [
  | ok (a, c') ↦ ok ((drop (length c.before) c'.before, a), c')
  | throws ↦ throws
  | fault ↦ fault
]

unfoldable pub to_le : ℕ → ℕ → List ℕ
to_le zero n = []
to_le (suc k) n = n % 256 ∷ to_le k (n / 256)

unfoldable pub of_le : List ℕ → ℕ
of_le [] = 0
of_le (b ∷ bs) = b + 256 * of_le bs

unfoldable pub get_word : ℕ → M ℕ
get_word k = get k >>= λ bs. pure (of_le bs)

-- `memcpy(_, source, n)` reads `n` bytes of the source; `none` is the null pointer.
unfoldable pub source_bytes : Option (List ℕ) → ℕ → Outcome (List ℕ)
source_bytes none n = fault
source_bytes (some bs) n = if leb n (length bs) then ok (take n bs) else fault

-- 2 ^ (8 k), so that a numeral `k` gives a numeral.
abbrev pub capacity : ℕ → ℕ
capacity zero = 1
capacity (suc k) = 256 * capacity k

pub length-to_le : (k n : ℕ) → length (to_le k n) ≡ k
unfolding to_le
length-to_le zero n = omega arith
length-to_le (suc k) n = omega (arith, length-to_le k (n / 256))

pub of_le-to_le : (k n : ℕ) → n < capacity k → of_le (to_le k n) ≡ n
unfolding to_le of_le
of_le-to_le zero n h = omega arith
of_le-to_le (suc k) n h = omega (arith, of_le-to_le k (n / 256) (omega arith))

pub to_le-All : (k n : ℕ) → All (λ b. b < 256) (to_le k n)
unfolding to_le
to_le-All zero n = tt
to_le-All (suc k) n = (omega arith, to_le-All k (n / 256))
