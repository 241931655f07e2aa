-- ===== src/Buffer/Stores.antt =====
-- Stores one after another are one store of the bytes joined.
use mathlib.Core.Path.{fun_ext}
use iot_drive.Shared.{
  ℕ, ◌≤◌, ◌<◌, ◌≡◌, sym, ap, ◌∙◌, List, [], ◌++◌, append_assoc, append-nil, ok, fault, arith,
  length, drop, length-append, length-drop, drop-drop, drop-length-append, drop-length,
}
use iot_drive.Buffer.{Cursor, M, ◌>>=◌, ◌>>◌, put, put_here, spanned}

pub put-fits :
    (bs : List ℕ) (c : Cursor)
    → length bs ≤ length c.rest
    → put bs c ≡ ok (tt, record { before = c.before ++ bs; rest = drop (length bs) c.rest })
unfolding put
put-fits bs c h = ground arith

pub put_at-put : (bs cs : List ℕ) (c : Cursor) → (put bs >> put cs) c ≡ put (bs ++ cs) c
unfolding put
put_at-put bs cs c = ground (
  arith,
  length-append bs cs,
  length-drop (length bs) c.rest,
  drop-drop (length bs) (length cs) c.rest,
  append_assoc c.before bs cs,
)

pub put-put : (bs cs : List ℕ) → (put bs >> put cs) ≡ put (bs ++ cs)
put-put bs cs = fun_ext (put_at-put bs cs)

>>_assoc :
    {A B C : Type 0} (m : M A) (n : M B) (k : M C) (c : Cursor)
    → ((m >> n) >> k) c ≡ (m >> (n >> k)) c
>>_assoc m n k c = ground arith

pub put_assoc :
    {A : Type 0} (bs cs : List ℕ) (k : M A) → (put bs >> (put cs >> k)) ≡ (put (bs ++ cs) >> k)
put_assoc bs cs k = fun_ext λ c.
    sym (>>_assoc (put bs) (put cs) k c) ∙ ap (λ (m : M (Unit {0})). (m >> k) c) (put-put bs cs)

pub spanned-put :
    {A : Type 0} (bs : List ℕ) (f : List ℕ × (Unit {0}) → M A)
    → (spanned (put bs) >>= f) ≡ (put bs >> f (bs, tt))
unfolding put spanned
spanned-put bs f = fun_ext λ c. ground (arith, drop-length-append c.before bs)

-- A store into room of just its length leaves the bytes as the contents.
pub put-exact :
    (bs r : List ℕ)
    → length r ≡ length bs
    → put bs (record { before = []; rest = r }) ≡ ok (tt, record { before = bs; rest = [] })
unfolding put
put-exact bs r h = ground (arith, drop-length r)

pub put_here-exact :
    (d bs r : List ℕ)
    → length r ≡ length bs
    → put_here bs (record { before = d; rest = r }) ≡ ok (tt, record { before = d; rest = bs })
unfolding put_here
put_here-exact d bs r h = ground (arith, drop-length r, append-nil bs)

pub put_short : (bs : List ℕ) (c : Cursor) → length c.rest < length bs → put bs c ≡ fault
unfolding put
put_short bs c h = ground arith

-- `n` bytes, and then a store without a step: the bytes of both lie there in the end.
pub put-put_here :
    (bs cs r : List ℕ)
    → length r ≡ length (bs ++ cs)
    → (put bs >> put_here cs) (record { before = []; rest = r })
      ≡ ok (tt, record { before = bs; rest = cs })
unfolding put put_here
put-put_here bs cs r h = ground (
  arith,
  length-append bs cs,
  length-drop (length bs) r,
  drop-drop (length bs) (length cs) r,
  drop-length r,
  append-nil cs,
)

pub put-put_here_short :
    (bs cs : List ℕ) (c : Cursor)
    → length c.rest < length (bs ++ cs)
    → (put bs >> put_here cs) c ≡ fault
unfolding put put_here
put-put_here_short bs cs c h = ground (arith, length-append bs cs, length-drop (length bs) c.rest)
