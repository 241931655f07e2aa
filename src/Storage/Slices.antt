-- ===== src/Storage/Slices.antt =====
-- Reading back what has been written, and what has not been touched.
use iot_drive.Shared.{
  ℕ, zero, suc, ◌+◌, ◌≤◌, ◌<◌, ◌≡◌, refl, ap, ap₂, ◌∙◌, ◌⊎◌, List, [], ◌∷◌, arith, length, All,
}
use iot_drive.Storage.{write_at, slice}

pub write_at-outside :
    (content : ℕ → ℕ) (p : ℕ) (bs : List ℕ) (i : ℕ)
    → (i < p) ⊎ (p + length bs ≤ i)
    → write_at content p bs i ≡ content i
unfolding write_at
write_at-outside content p [] i h = refl
write_at-outside content p (b ∷ bs) i h = ground (arith, write_at-outside content (suc p) bs i)

-- Inside, the old content does not matter; so two files written alike agree there.
pub write_at-inside :
    (c d : ℕ → ℕ) (p q : ℕ) (bs : List ℕ) (i : ℕ)
    → i < length bs
    → write_at c p bs (p + i) ≡ write_at d q bs (q + i)
unfolding write_at
write_at-inside c d p q [] i h = elim h [ ]
write_at-inside c d p q (b ∷ bs) zero h = ground arith
write_at-inside c d p q (b ∷ bs) (suc i) h =
    ground (arith, move p i, move q i, write_at-inside c d (suc p) (suc q) bs i)
  where
    move : (n m : ℕ) → n + suc m ≡ suc n + m
    move n m = omega arith

pub length-slice : (content : ℕ → ℕ) (p n : ℕ) → length (slice content p n) ≡ n
unfolding slice
length-slice content p zero = refl
length-slice content p (suc n) = ap suc (length-slice content (suc p) n)

-- Slices of two contents that agree there.
pub slice-cong :
    (c d : ℕ → ℕ) (p q n : ℕ)
    → ((i : ℕ) → i < n → c (p + i) ≡ d (q + i))
    → slice c p n ≡ slice d q n
unfolding slice
slice-cong c d p q zero h = refl
slice-cong c d p q (suc n) h =
    ap₂ ◌∷◌
      (ap c (let e : p ≡ p + 0 = omega arith in e)
        ∙ h 0 (omega arith)
        ∙ ap d (let e : q + 0 ≡ q = omega arith in e))
      (slice-cong c d (suc p) (suc q) n (λ i lt.
        ap c (let e : suc p + i ≡ p + suc i = omega arith in e)
        ∙ h (suc i) (omega arith)
        ∙ ap d (let e : q + suc i ≡ suc q + i = omega arith in e)))

pub slice-write_at :
    (content : ℕ → ℕ) (p : ℕ) (bs : List ℕ) → slice (write_at content p bs) p (length bs) ≡ bs
unfolding slice write_at
slice-write_at content p [] = refl
slice-write_at content p (b ∷ bs) =
    ap₂ ◌∷◌ (let e : write_at content p (b ∷ bs) p ≡ b = ground arith in e) (
      slice-cong (write_at content p (b ∷ bs)) (write_at content (suc p) bs) (suc p) (suc p)
        (length bs) (λ i lt. ground arith)
      ∙ slice-write_at content (suc p) bs)

-- Writing the same bytes at corresponding places keeps corresponding places alike.
pub write_at-agree :
    (c d : ℕ → ℕ) (p q : ℕ) (bs : List ℕ) (x i : ℕ)
    → c x ≡ d i
    → x + q ≡ i + p
    → write_at c p bs x ≡ write_at d q bs i
unfolding write_at
write_at-agree c d p q [] x i h e = h
write_at-agree c d p q (b ∷ bs) x i h e =
    ground (arith, write_at-agree c d (suc p) (suc q) bs x i h (omega arith))

pub write_at-lt :
    (n : ℕ) (c : ℕ → ℕ) (p : ℕ) (bs : List ℕ)
    → ((i : ℕ) → c i < n)
    → All (λ b. b < n) bs
    → (i : ℕ) → write_at c p bs i < n
unfolding write_at
write_at-lt n c p [] h hs i = h i
write_at-lt n c p (b ∷ bs) h hs i = ground (arith, write_at-lt n c (suc p) bs h hs.1 i)
