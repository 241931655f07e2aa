-- ===== src/Raid/Placement.antt =====
-- The placement of the two copies: on two minions, inside their files, and one byte to a place.
use iot_drive.Shared.{ℕ, ◌+◌, ◌*◌, ◌/◌, ◌%◌, ◌≤◌, ◌<◌, ◌≡◌, ◌≢◌, ◌⊎◌, inl, inr, ok, fault, arith}
use native.Mathlib.Decide.{dec_lt}
use iot_drive.Raid.{Target, memory, minion_size, offset_to_proxy}

-- Where the copies of a byte of the device are.
abbrev pub primary : ℕ → Target
primary offset = record { minion = offset / minion_size; offset = offset % minion_size }

abbrev pub backup : ℕ → Target
backup offset = record {
  minion = (offset / minion_size + 1) % 3;
  offset = offset % minion_size + minion_size;
}

pub offset_to_proxy_inside :
    (offset : ℕ) → offset < memory → offset_to_proxy offset ≡ ok (primary offset, backup offset)
unfolding offset_to_proxy
offset_to_proxy_inside offset h = ground arith

offset_to_proxy_outside : (offset : ℕ) → memory ≤ offset → offset_to_proxy offset ≡ fault
unfolding offset_to_proxy
offset_to_proxy_outside offset h = ground arith

-- The copies of a byte inside the device lie on two different minions of the three, the primary in
-- the lower half and the backup in the upper half of an 8 MB file; an offset behind the device
-- leads out of the vector of proxies.
pub offset_to_proxy_bounds :
    (offset : ℕ)
    → ((offset < memory)
        × ((p : Target) × (b : Target) × (offset_to_proxy offset ≡ ok (p, b))
            × (p.minion ≢ b.minion)
            × (p.minion < 3)
            × (b.minion < 3)
            × (p.offset < minion_size)
            × (minion_size ≤ b.offset)
            × (b.offset < 2 * minion_size)))
      ⊎ ((memory ≤ offset) × (offset_to_proxy offset ≡ fault))
offset_to_proxy_bounds offset = elim (dec_lt offset memory) [
  | yes h ↦ inl (
    h,
    (
      primary offset,
      backup offset,
      offset_to_proxy_inside offset h,
      omega arith,
      omega arith,
      omega arith,
      omega arith,
      omega arith,
      omega arith,
    ),
  )
  | no h ↦ inr (omega arith, offset_to_proxy_outside offset (omega arith))
]

-- Two bytes of the device never share a place: equal primary places or equal backup places are of
-- one byte, and no primary place is a backup place.
pub offset_to_proxy_injective :
    (x y : ℕ) (p b q c : Target)
    → offset_to_proxy x ≡ ok (p, b)
    → offset_to_proxy y ≡ ok (q, c)
    → (p ≡ q → x ≡ y) × (b ≡ c → x ≡ y) × (p ≢ c)
unfolding offset_to_proxy
offset_to_proxy_injective x y p b q c e f =
    (λ h. ground arith, λ h. ground arith, λ h. ground arith)
