-- ===== src/Buffer/Loads.antt =====
-- What a walk of loads reads from a given run of bytes, whatever lies around it.
use iot_drive.Shared.{
  ℕ, ◌<◌, ◌≡◌, subst, List, [], ◌++◌, append_assoc, append-nil, ok, arith, length, length-append,
  take-length-append, drop-length-append,
}
use iot_drive.Buffer.{
  M, ◌>>=◌, pure, get, get_word, spanned, to_le, capacity, length-to_le, of_le-to_le,
}

pub record Reads {A : Type 0} (p : M A) (bs : List ℕ) (a : A) : Type 0 where
  pub at :
      (d r : List ℕ)
      → p (record { before = d; rest = bs ++ r }) ≡ ok (a, record { before = d ++ bs; rest = r })

pub Reads-get : (n : ℕ) (bs : List ℕ) → length bs ≡ n → Reads (get n) bs bs
unfolding get
Reads-get n bs h = record {
  at = λ d r. ground (arith, length-append bs r, take-length-append bs r, drop-length-append bs r);
}

pub Reads-bind :
    {A B : Type 0} (p : M A) (f : A → M B) (bs cs : List ℕ) (a : A) (b : B)
    → Reads p bs a
    → Reads (f a) cs b
    → Reads (p >>= f) (bs ++ cs) b
Reads-bind p f bs cs a b hp hf = record {
  at = λ d r.
      ground
        (arith, append_assoc bs cs r, append_assoc d bs cs, hp.at d (cs ++ r), hf.at (d ++ bs) r);
}

pub Reads-pure : {A : Type 0} (a : A) → Reads (pure a) [] a
Reads-pure a = record { at = λ d r. rw (append-nil d) }

pub Reads-get_word : (k n : ℕ) → n < capacity k → Reads (get_word k) (to_le k n) n
unfolding get_word
Reads-get_word k n h = record {
  at =
      λ d r. ground (arith, (Reads-get k (to_le k n) (length-to_le k n)).at d r, of_le-to_le k n h);
}

pub Reads-spanned :
    {A : Type 0} (p : M A) (bs : List ℕ) (a : A) → Reads p bs a → Reads (spanned p) bs (bs, a)
unfolding spanned
Reads-spanned p bs a h = record { at = λ d r. ground (arith, h.at d r, drop-length-append d bs) }

pub Reads-as :
    {A : Type 0} (p : M A) (bs cs : List ℕ) (a : A) → bs ≡ cs → Reads p bs a → Reads p cs a
Reads-as p bs cs a e h = subst (λ xs. Reads p xs a) e h
