-- ===== src/Message/Parse.antt =====
-- FromBuffer of ReadMsg and WriteMsg on any bytes of the right number, as a damaged packet has.
use iot_drive.Shared.{
  ℕ, ◌+◌, ◌≡◌, ap, List, [], ◌∷◌, arith, length, take, drop, length-take, length-drop,
  take-append-drop, append-nil, window-take,
}
use iot_drive.Buffer.{M, ◌>>=◌, pure, get_word, of_le}
use iot_drive.Buffer.Loads.{Reads, Reads-get, Reads-bind, Reads-pure, Reads-as}
use iot_drive.Message.Identity.{Uid, uid_from_buffer}
use iot_drive.Message.{Header}
use iot_drive.Message.Wire.{header_from_buffer, read_body, write_body}

-- A walk of loads reads something from any bytes of the right number: cut them up as it does.
pub Reads-cut :
    {A B : Type 0} (n : ℕ) (p : M A) (f : A → M B) (bs : List ℕ) (a : A) (b : B)
    → Reads p (take n bs) a
    → Reads (f a) (drop n bs) b
    → Reads (p >>= f) bs b
Reads-cut n p f bs a b hp hf =
    Reads-as (p >>= f) _ bs b (take-append-drop n bs) (Reads-bind p f _ _ a b hp hf)

pub Reads-any_word : (n : ℕ) (bs : List ℕ) → length bs ≡ n → Reads (get_word n) bs (of_le bs)
unfolding get_word
Reads-any_word n bs h =
    Reads-as (get_word n) _ bs (of_le bs) (append-nil bs)
      (Reads-bind _ _ _ _ _ _ (Reads-get n bs h) (Reads-pure (of_le bs)))

pub Reads-end : {A : Type 0} (bs : List ℕ) (a : A) → length bs ≡ 0 → Reads (pure a) bs a
Reads-end [] a h = Reads-pure a
Reads-end (x ∷ bs) a h = absurd (omega arith)

abbrev pub uid_of : List ℕ → Uid
uid_of bs = record {
  unique_counter = of_le (take 4 bs);
  timestamp = of_le (take 8 (drop 4 bs));
  pid = of_le (take 4 (drop 8 (drop 4 bs)));
  ip = of_le (take 8 (drop 4 (drop 8 (drop 4 bs))));
}

pub Reads-uid_of : (bs : List ℕ) → length bs ≡ 24 → Reads uid_from_buffer bs (uid_of bs)
unfolding uid_from_buffer
Reads-uid_of bs h =
    let one = length-drop 4 bs in
    let two = length-drop 8 (drop 4 bs) in
    let three = length-drop 4 (drop 8 (drop 4 bs)) in
    let four = length-drop 8 (drop 4 (drop 8 (drop 4 bs))) in
    Reads-cut 4 _ _ bs _ _ (Reads-any_word 4 _ (omega (arith, length-take 4 bs))) (
      Reads-cut 8 _ _ _ _ _ (Reads-any_word 8 _ (omega (arith, length-take 8 (drop 4 bs)))) (
        Reads-cut 4 _ _ _ _ _
          (Reads-any_word 4 _ (omega (arith, length-take 4 (drop 8 (drop 4 bs)))))
          (Reads-cut 8 _ _ _ _ _
            (Reads-any_word 8 _ (omega (arith, length-take 8 (drop 4 (drop 8 (drop 4 bs))))))
            (Reads-end _ _ (omega arith)))))

abbrev pub header_of : List ℕ → Header
header_of bs = record {
  key = of_le (take 4 bs);
  size = of_le (take 4 (drop 4 bs));
  uid = uid_of (drop 4 (drop 4 bs));
}

pub Reads-header_of : (bs : List ℕ) → length bs ≡ 32 → Reads header_from_buffer bs (header_of bs)
unfolding header_from_buffer
Reads-header_of bs h =
    let one = length-drop 4 bs in
    let two = length-drop 4 (drop 4 bs) in
    Reads-cut 4 _ _ bs _ _ (Reads-any_word 4 _ (omega (arith, length-take 4 bs))) (
      Reads-cut 4 _ _ _ _ _ (Reads-any_word 4 _ (omega (arith, length-take 4 (drop 4 bs)))) (
        Reads-as _ _ _ _ (append-nil _)
          (Reads-bind _ _ _ _ _ _ (Reads-uid_of _ (omega arith)) (Reads-pure (header_of bs)))))

pub Reads-read_body_of :
    (bs : List ℕ) → length bs ≡ 40 → Reads read_body bs (header_of (take 32 bs), of_le (drop 32 bs))
unfolding read_body
Reads-read_body_of bs h =
    Reads-cut 32 _ _ bs _ _ (Reads-header_of _ (omega (arith, length-take 32 bs))) (
      Reads-as _ _ _ _ (append-nil _) (
        Reads-bind _ _ _ _ _ _ (Reads-any_word 8 _ (omega (arith, length-drop 32 bs)))
          (Reads-pure _)))

-- The size that the bytes of a WriteMsg state.
abbrev pub size_of : List ℕ → ℕ
size_of bs = of_le (take 4 (drop 4 bs))

pub Reads-write_body_of :
    (bs : List ℕ)
    → length bs ≡ 40 + size_of bs
    → Reads write_body bs (header_of (take 32 bs), of_le (take 8 (drop 32 bs)), drop 8 (drop 32 bs))
unfolding write_body
Reads-write_body_of bs h =
    let size_known = ap of_le (window-take 4 4 32 bs (omega arith)) in
    let one = length-drop 32 bs in
    let two = length-drop 8 (drop 32 bs) in
    Reads-cut 32 _ _ bs _ _ (Reads-header_of _ (omega (arith, length-take 32 bs))) (
      Reads-cut 8 _ _ _ _ _ (Reads-any_word 8 _ (omega (arith, length-take 8 (drop 32 bs)))) (
        Reads-as _ _ _ _ (append-nil _) (
          Reads-bind _ _ _ _ _ _ (Reads-get _ (drop 8 (drop 32 bs)) (omega arith)) (Reads-pure _))))
