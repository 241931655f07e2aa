-- ===== src/Nbd/Options/Sizes.antt =====
-- Sizes in decimal digits, and the size of the device.
use Prim.Native.Nat.{min}
use iot_drive.Shared.{
  ℕ, zero, suc, ◌+◌, ◌-◌, ◌*◌, ◌/◌, ◌%◌, ◌^◌, ◌≤◌, ◌<◌, ◌≡◌, refl, sym, ap, ◌∙◌, false, List, [],
  ◌∷◌, ◌++◌, inl, inr, Bool-cases, codes, arith, ltb, if◌then◌else◌, append_assoc,
}
use iot_drive.Raid
use iot_drive.Nbd.Options.{
  scan, prefixed, skip_spaces, limited, strtoull, strtoull_with_prefix, run, serves, apply_suffix,
  dev_file, max_u64, argp_parse, parse_opt, report,
}

abbrev decimal : ℕ → ℕ → List ℕ
decimal zero n = []
decimal (suc k) n = if ltb n 10 then (48 + n) ∷ [] else decimal k (n / 10) ++ (48 + n % 10) ∷ []

-- A number in decimal digits.
abbrev pub print : ℕ → List ℕ
print n = decimal (suc n) n

scan-digit : (a d : ℕ) (cs : List ℕ) → d < 10 → scan 10 a ((48 + d) ∷ cs) ≡ scan 10 (a * 10 + d) cs
unfolding scan
scan-digit a d cs h = ground arith

scan-decimal : (k n : ℕ) (cs : List ℕ) → n < k → scan 10 0 (decimal k n ++ cs) ≡ scan 10 n cs
scan-decimal zero n cs h = absurd (omega arith)
scan-decimal (suc k) n cs h = elim (Bool-cases (ltb n 10)) [
  | inl y ↦
      let whole : 0 * 10 + n ≡ n = omega arith in
      rw y (scan-digit 0 n cs (ground arith) ∙ ap (λ m. scan 10 m cs) whole)
  | inr y ↦
      let small : n / 10 < k = ground arith in
      let whole : n / 10 * 10 + n % 10 ≡ n = omega arith in
      rw
        (
          y,
          append_assoc (decimal k (n / 10)) ((48 + n % 10) ∷ []) cs,
          scan-decimal k (n / 10) ((48 + n % 10) ∷ cs) small,
        )
        (scan-digit (n / 10) (n % 10) cs (omega arith) ∙ ap (λ m. scan 10 m cs) whole)
]

-- The first digit is not 0.
first_digit :
    (k n : ℕ) → n < k → 0 < n → (c : ℕ) × (cs : List ℕ) × (decimal k n ≡ (49 + c) ∷ cs) × (c < 9)
first_digit zero n h p = absurd (omega arith)
first_digit (suc k) n h p = elim (Bool-cases (ltb n 10)) [
  | inl y ↦ (n - 1, [], rw y (ap (λ m. m ∷ []) (omega (arith, p))), ground arith)
  | inr y ↦
      let small : n / 10 < k = ground arith in
      let more : 0 < n / 10 = ground arith in
      let (c, cs, e, d) = first_digit k (n / 10) small more in
      (c, cs ++ (48 + n % 10) ∷ [], rw (y, e) refl, d)
]

strtoull-first :
    (c : ℕ) (cs : List ℕ)
    → c < 9
    → strtoull ((49 + c) ∷ cs)
      ≡ (limited false ((scan 10 0 ((49 + c) ∷ cs)).0), (scan 10 0 ((49 + c) ∷ cs)).1)
unfolding strtoull skip_spaces prefixed
strtoull-first c [] h = ground arith
strtoull-first c (x ∷ cs) h = ground arith

-- The suffixes, and what they stand for.
pub data Suffix : Type 0 where
  bytes kilo mega giga : Suffix

abbrev pub text_of : Suffix → List ℕ
text_of bytes = []
text_of kilo = codes "K"
text_of mega = codes "M"
text_of giga = codes "G"

abbrev pub factor_of : Suffix → ℕ
factor_of bytes = 1
factor_of kilo = 2 ^ 10
factor_of mega = 2 ^ 20
factor_of giga = 2 ^ 30

scan-text_of : (n : ℕ) (s : Suffix) → scan 10 n (text_of s) ≡ (n, text_of s)
unfolding scan
scan-text_of n bytes = refl
scan-text_of n kilo = refl
scan-text_of n mega = refl
scan-text_of n giga = refl

limited-min : (n : ℕ) → limited false n ≡ min n max_u64
unfolding limited
limited-min n = ground arith

strtoull-print : (n : ℕ) (s : Suffix) → strtoull (print n ++ text_of s) ≡ (min n max_u64, text_of s)
unfolding strtoull skip_spaces prefixed scan limited
strtoull-print zero s = by_suffix s
  where
    by_suffix : (s : Suffix) → strtoull (48 ∷ text_of s) ≡ (0, text_of s)
    by_suffix bytes = refl
    by_suffix kilo = refl
    by_suffix mega = refl
    by_suffix giga = refl
strtoull-print (suc n) s =
    let (c, cs, e, d) = first_digit (suc (suc n)) (suc n) (omega arith) (omega arith) in
    let scanned : scan 10 0 ((49 + c) ∷ (cs ++ text_of s)) ≡ (suc n, text_of s) =
      sym (ap (λ t. scan 10 0 (t ++ text_of s)) e)
      ∙ scan-decimal (suc (suc n)) (suc n) (text_of s) (omega arith)
      ∙ scan-text_of (suc n) s in
    rw e (
      strtoull-first c (cs ++ text_of s) d
      ∙ rw scanned (ap (λ m. (m, text_of s)) (limited-min (suc n))))

apply_suffix-text_of :
    (v : ℕ) (s : Suffix) → v ≤ max_u64 → apply_suffix v (text_of s) ≡ (v * factor_of s % 2 ^ 64, [])
unfolding apply_suffix
apply_suffix-text_of v bytes h = ap (λ m. (m, [])) (omega arith)
apply_suffix-text_of v kilo h = refl
apply_suffix-text_of v mega h = refl
apply_suffix-text_of v giga h = refl

-- A size that is printed in decimal digits with a suffix is read as that number, cut at the largest
-- 64-bit number, times what the suffix stands for, wrapped around, and the whole text is taken.
pub strtoull_with_prefix-print :
    (n : ℕ) (s : Suffix)
    → strtoull_with_prefix (print n ++ text_of s) ≡ (min n max_u64 * factor_of s % 2 ^ 64, [])
unfolding strtoull_with_prefix
strtoull_with_prefix-print n s =
    rw (strtoull_with_prefix, strtoull-print n s)
      (apply_suffix-text_of (min n max_u64) s (omega arith))

-- The client serves the memory that the three minions keep.
run_lem :
    {R : Type 0} (buse_main : List ℕ → ℕ → R)
    → run buse_main ≡ serves (buse_main dev_file Raid.memory)
unfolding run argp_parse parse_opt report strtoull_with_prefix strtoull skip_spaces prefixed scan
    limited apply_suffix
run_lem buse_main = refl
