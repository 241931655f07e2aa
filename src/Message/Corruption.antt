-- ===== src/Message/Corruption.antt =====
-- The checksum of ReadMsg and WriteMsg, as FromBuffer tests it in a build without NDEBUG.
use iot_drive.Shared.{
  ℕ, ◌+◌, ◌≤◌, ◌<◌, ◌≡◌, ◌≢◌, refl, sym, ap, ◌∙◌, ◌⊎◌, true, List, [], ◌∷◌, ◌++◌, some, throws,
  arith, length, set, get_elem?, All, length-set, length-append, append_assoc, set-append_left,
  set-append_right, take-append_exact, drop-append_exact, window-set, get_elem?-append_left,
  get_elem?-append_right,
}
use iot_drive.Buffer.{
  M, ◌>>=◌, ◌>>◌, pure, at_start, get_word, spanned, to_le, of_le, length-to_le, of_le-to_le,
}
use iot_drive.Buffer.Loads.{Reads, Reads-spanned}
use iot_drive.Message.Checksum.{
  calculate_checksum, calculate_checksum-set_ne, calculate_checksum-lt,
}
use iot_drive.Message.{Header, Msg, read_msg, write_msg, read, write}
use iot_drive.Message.Wire.{check_sum, read_body, write_body, from_buffer}
use iot_drive.Message.Format.{
  encode, with_checksum, header_bytes, IsValid, HeaderFits, length-header_bytes,
}
use iot_drive.Message.Parse.{Reads-any_word, Reads-read_body_of, Reads-write_body_of, size_of}
use native.Mathlib.Decide.{dec_lt}
use iot_drive.Message.Decode.{read_body-All, write_body-All}

to_le_byte : (n : ℕ) → n < 256 → to_le 1 n ≡ n ∷ []
unfolding to_le
to_le_byte n h = ground arith

-- The rest of FromBuffer behind the body: the checksum byte, the test, and the message.
abbrev checked : {A : Type 0} → M A → (A → M Msg) → M Msg
checked p k = spanned p >>= λ w.
    get_word 1 >>= λ received. check_sum true received (calculate_checksum (w.0)) >> k (w.1)

checked_throws :
    {A : Type 0} (p : M A) (k : A → M Msg) (body : List ℕ) (x : ℕ) (a : A)
    → Reads p body a
    → x ≢ calculate_checksum body
    → checked p k (at_start (body ++ x ∷ [])) ≡ throws
unfolding check_sum of_le
checked_throws p k body x a h ne =
    ground (
      arith,
      (Reads-spanned p body a h).at [] (x ∷ []),
      (Reads-any_word 1 (x ∷ []) refl).at body [],
    )

-- One byte of the body or the checksum byte itself is changed.
checked-set_throws :
    {A : Type 0} (p : M A) (k : A → M Msg) (body : List ℕ) (i v : ℕ) (a a' : A)
    → Reads p body a
    → (i < length body → Reads p (set body i v) a')
    → All (λ b. b < 256) body
    → i < length (with_checksum body)
    → get_elem? (with_checksum body) i ≢ some v
    → checked p k (at_start (set (with_checksum body) i v)) ≡ throws
checked-set_throws p k body i v a a' h h' bytes lt ne = elim (dec_lt i (length body)) [
  | yes inside ↦
      rw (last, set-append_left body (calculate_checksum body ∷ []) i v inside)
        (checked_throws p k (set body i v) (calculate_checksum body) a' (h' inside) (λ e.
          calculate_checksum-set_ne body i v inside
            (λ e'. ne (get_elem?-append_left body _ i inside ∙ e')) (sym e)))
  | no outside ↦
      let at_end : i ≡ length body + 0 = omega (
        arith,
        length-append body (to_le 1 (calculate_checksum body)),
        length-to_le 1 (calculate_checksum body),
      ) in
      rw (last, at_end, set-append_right body (calculate_checksum body ∷ []) 0 v)
        (checked_throws p k body v a h (λ e. ne (
          rw (last, at_end)
            (get_elem?-append_right body (calculate_checksum body ∷ []) 0 ∙ ap some (sym e)))))
]
  where
    last : to_le 1 (calculate_checksum body) ≡ calculate_checksum body ∷ []
    last = to_le_byte (calculate_checksum body) (calculate_checksum-lt body bytes)

length-body : (h : Header) (offset : ℕ) → length (header_bytes h ++ to_le 8 offset) ≡ 40
length-body h offset = omega (
  arith,
  length-append (header_bytes h) (to_le 8 offset),
  length-header_bytes h,
  length-to_le 8 offset,
)

-- A ReadMsg packet with any one byte replaced by another value, the checksum byte included, is
-- refused: FromBuffer throws in a build that tests the checksum.
pub read_msg_corrupted :
    (h : Header) (offset i v : ℕ)
    → IsValid (read_msg h offset)
    → i < length (encode (read_msg h offset))
    → get_elem? (encode (read_msg h offset)) i ≢ some v
    → from_buffer true read (at_start (set (encode (read_msg h offset)) i v)) ≡ throws
unfolding from_buffer encode
read_msg_corrupted h offset i v valid lt ne =
    checked-set_throws read_body (λ q. pure (read_msg q.0 q.1)) (header_bytes h ++ to_le 8 offset) i
      v _ _ (Reads-read_body_of _ (length-body h offset))
      (λ _. Reads-read_body_of _ (length-set _ i v ∙ length-body h offset)) (read_body-All h offset)
      lt ne

size_of-body :
    (h : Header) (offset : ℕ) (bytes : List ℕ)
    → HeaderFits h
    → size_of (header_bytes h ++ to_le 8 offset ++ bytes) ≡ h.size
unfolding header_bytes
size_of-body h offset bytes v =
    simp
      (
        append_assoc,
        drop-append_exact 4 (to_le 4 h.key) _ (length-to_le 4 h.key),
        take-append_exact 4 (to_le 4 h.size) _ (length-to_le 4 h.size),
      )
      (of_le-to_le 4 h.size v.size_fits)

-- A WriteMsg packet with any one byte replaced by another value is refused in the same way, if the
-- byte is not one of the four that hold the size, which say where the checksum stands.
pub write_msg_corrupted :
    (h : Header) (offset : ℕ) (bytes : List ℕ) (i v : ℕ)
    → IsValid (write_msg h offset (some bytes))
    → (i < 4) ⊎ (8 ≤ i)
    → i < length (encode (write_msg h offset (some bytes)))
    → get_elem? (encode (write_msg h offset (some bytes))) i ≢ some v
    → from_buffer true write (at_start (set (encode (write_msg h offset (some bytes))) i v))
      ≡ throws
unfolding from_buffer encode
write_msg_corrupted h offset bytes i v valid outside lt ne =
    checked-set_throws write_body (λ q. pure (write_msg q.0 q.1 (some q.2)))
      (header_bytes h ++ to_le 8 offset ++ bytes) i v _ _
      (Reads-write_body_of _ (omega (arith, long, size_of-body h offset bytes valid.0)))
      (λ _. Reads-write_body_of _ (
        omega (
          arith,
          long,
          length-set (header_bytes h ++ to_le 8 offset ++ bytes) i v,
          size_of-body h offset bytes valid.0,
          ap of_le (window-set (header_bytes h ++ to_le 8 offset ++ bytes) i 4 4 v outside),
        )))
      (write_body-All h offset bytes valid.2.1) lt ne
  where
    long : length (header_bytes h ++ to_le 8 offset ++ bytes) ≡ 40 + h.size
    long = omega (
      arith,
      length-append (header_bytes h ++ to_le 8 offset) bytes,
      length-body h offset,
      valid.2.0,
    )
