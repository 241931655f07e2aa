-- ===== src/Message/Checksum.antt =====
-- CalculateChecksum: the exclusive or of the bytes.
use Prim.Native.Nat.{bit_xor}
use iot_drive.Shared.{
  ℕ, zero, suc, ◌<◌, ◌≡◌, ◌≢◌, sym, ap, List, [], ◌∷◌, some, arith, length, get_elem?, set, All,
}
use iot_drive.Shared.Bits.{bit_xor-cancel_left, bit_xor-cancel_right, bit_xor-lt}

-- The loop of CalculateChecksum over the bytes that are left.
unfoldable pub xor_bytes : ℕ → List ℕ → ℕ
xor_bytes checksum [] = checksum
xor_bytes checksum (b ∷ bs) = xor_bytes (bit_xor checksum b) bs

unfoldable pub calculate_checksum : List ℕ → ℕ
unfolding xor_bytes
calculate_checksum bs = xor_bytes 0 bs

xor_bytes_injective : (c c' : ℕ) (bs : List ℕ) → xor_bytes c bs ≡ xor_bytes c' bs → c ≡ c'
unfolding xor_bytes
xor_bytes_injective c c' [] h = h
xor_bytes_injective c c' (b ∷ bs) h =
    bit_xor-cancel_right b c c' (xor_bytes_injective (bit_xor c b) (bit_xor c' b) bs h)

xor_bytes-set_ne :
    (c : ℕ) (bs : List ℕ) (i v : ℕ)
    → i < length bs
    → get_elem? bs i ≢ some v
    → xor_bytes c (set bs i v) ≢ xor_bytes c bs
unfolding xor_bytes
xor_bytes-set_ne c [] i v lt h e = elim lt [ ]
xor_bytes-set_ne c (b ∷ bs) zero v lt h e = h (
    ap some
      (sym (bit_xor-cancel_left c v b (xor_bytes_injective (bit_xor c v) (bit_xor c b) bs e))))
xor_bytes-set_ne c (b ∷ bs) (suc i) v lt h e =
    xor_bytes-set_ne (bit_xor c b) bs i v (omega arith) h e

-- Changing one byte changes the checksum.
pub calculate_checksum-set_ne :
    (bs : List ℕ) (i v : ℕ)
    → i < length bs
    → get_elem? bs i ≢ some v
    → calculate_checksum (set bs i v) ≢ calculate_checksum bs
unfolding calculate_checksum
calculate_checksum-set_ne bs i v = xor_bytes-set_ne 0 bs i v

xor_bytes-lt : (c : ℕ) (bs : List ℕ) → c < 256 → All (λ b. b < 256) bs → xor_bytes c bs < 256
unfolding xor_bytes
xor_bytes-lt c [] h hs = h
xor_bytes-lt c (b ∷ bs) h hs = xor_bytes-lt (bit_xor c b) bs (bit_xor-lt 8 c b h hs.0) hs.1

pub calculate_checksum-lt : (bs : List ℕ) → All (λ b. b < 256) bs → calculate_checksum bs < 256
unfolding calculate_checksum
calculate_checksum-lt bs hs = xor_bytes-lt 0 bs (omega arith) hs
