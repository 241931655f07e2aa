-- ===== src/Nbd/Options.antt =====
-- The command line of the block device client (src/raz_nbd.cpp): the size with its suffix, and the
-- parser of the options. `strtoull` is the one of the C library, with base 0. Texts are the bytes in
-- front of their zero.
pub mod Sizes
use iot_drive.Shared.{
  ℕ, zero, suc, ◌+◌, ◌-◌, ◌*◌, ◌%◌, ◌^◌, Bool, true, false, not, ◌&&◌, ◌||◌, List, [], ◌∷◌, Option,
  none, some, ltb, leb, ◌==◌, if◌then◌else◌, codes,
}
use iot_drive.Raid.{kb, mb}

-- The value of a character as a digit.
abbrev pub digit : ℕ → ℕ → Option ℕ
digit base c =
    let d =
      if leb 48 c && leb c 57
      then c - 48
      else if leb 97 c && leb c 122
      then c - 87
      else if leb 65 c && leb c 90
      then c - 55
      else base in
    if ltb d base then some d else none

-- The digits from a text on, behind the number `n`, and the rest of the text.
unfoldable pub scan : ℕ → ℕ → List ℕ → ℕ × List ℕ
scan base n [] = (n, [])
scan base n (c ∷ cs) = elim (digit base c) [
  | none ↦ (n, c ∷ cs)
  | some d ↦ scan base (n * base + d) cs
]

abbrev pub is_x : ℕ → Bool
is_x c = c == 120 || c == 88

abbrev pub starts_number : ℕ → List ℕ → Bool
starts_number base [] = false
starts_number base (c ∷ cs) = elim (digit base c) [ none ↦ false | some d ↦ true ]

-- A number with its prefix: `0x` in front of a hexadecimal digit, or `0`.
unfoldable pub prefixed : List ℕ → Option (ℕ × List ℕ)
prefixed [] = none
prefixed (c ∷ []) = if starts_number 10 (c ∷ []) then some (scan 10 0 (c ∷ [])) else none
prefixed (c ∷ x ∷ cs) =
    if not (starts_number 10 (c ∷ []))
    then none
    else if not (c == 48)
    then some (scan 10 0 (c ∷ x ∷ cs))
    else if is_x x && starts_number 16 cs
    then some (scan 16 0 cs)
    else some (scan 8 0 (c ∷ x ∷ cs))

abbrev pub is_space : ℕ → Bool
is_space c = c == 32 || leb 9 c && leb c 13

unfoldable pub skip_spaces : List ℕ → List ℕ
skip_spaces [] = []
skip_spaces (c ∷ cs) = if is_space c then skip_spaces cs else c ∷ cs

abbrev pub max_u64 : ℕ
max_u64 = 2 ^ 64 - 1

-- The largest number in place of one that does not fit; a minus sign wraps around.
unfoldable pub limited : Bool → ℕ → ℕ
limited negative n =
    if ltb max_u64 n then max_u64 else if negative then (2 ^ 64 - n) % 2 ^ 64 else n

-- The value, and the text from `*end` on, which is all of it if there is no number.
unfoldable pub strtoull : List ℕ → ℕ × List ℕ
strtoull str = elim (skip_spaces str) [
  | [] ↦ (0, str)
  | c ∷ cs ↦ elim (if c == 43 || c == 45 then prefixed cs else prefixed (c ∷ cs)) [
    | none ↦ (0, str)
    | some (n, end) ↦ (limited (c == 45) n, end)
  ]
]

-- `v *= n` on unsigned long long.
abbrev pub times : ℕ → ℕ → ℕ
times v n = v * n % 2 ^ 64

-- `switch (**end)`, and the text from `*end` on behind it.
unfoldable pub apply_suffix : ℕ → List ℕ → ℕ × List ℕ
apply_suffix v [] = (v, [])
apply_suffix v (c ∷ cs) =
    if c == 75
    then (times v 1024, cs)
    else if c == 77
    then (times v (1024 * 1024), cs)
    else if c == 71
    then (times v (1024 * 1024 * 1024), cs)
    else (v, c ∷ cs)

unfoldable pub strtoull_with_prefix : List ℕ → ℕ × List ℕ
strtoull_with_prefix str = let r = strtoull str in apply_suffix (r.0) (r.1)

-- `struct arguments`, and whether `std::cout` still prints: a null `char*` turns it off.
pub record Arguments : Type 0 where
  pub size : ℕ
  pub device : Option (List ℕ)
  pub verbose : Bool
  pub prints : Bool

-- The calls that argp makes: an option, an argument with its number, the end with the number of
-- arguments, and the other keys.
pub data ArgpKey : Type 0 where
  verbose_key : ArgpKey
  key_arg : ℕ → List ℕ → ArgpKey
  key_end : ℕ → ArgpKey
  other_key : ArgpKey

-- What the parser returns, or that it ends the process.
pub data Parsed : Type 0 where
  parsed : Arguments → Parsed
  err_unknown : Parsed
  ends_process : Parsed

-- The line that is printed at the end.
unfoldable pub report : Arguments → Parsed
report a = parsed (record a { prints = elim (a.device) [ none ↦ false | some d ↦ a.prints ] })

unfoldable pub parse_opt : ArgpKey → Arguments → Parsed
unfolding report
parse_opt verbose_key a = report (record a { verbose = true })
parse_opt (key_arg n arg) a =
    if n == 0
    then (let (v, end) = strtoull_with_prefix arg in
        elim end [ [] ↦ report (record a { size = v }) | c ∷ cs ↦ ends_process ])
    else if n == 1
    then report (record a { device = some arg })
    else err_unknown
parse_opt (key_end n) a = if ltb n 2 then ends_process else report a
parse_opt other_key a = err_unknown

-- argp over the keys: it goes on after a key that the parser does not know, if that is no argument.
unfoldable pub argp_parse : List ArgpKey → Arguments → Parsed
argp_parse [] a = parsed a
argp_parse (k ∷ ks) a = elim (parse_opt k a) [
  | parsed b ↦ argp_parse ks b
  | err_unknown ↦ elim k [ other_key ↦ argp_parse ks a | _ ↦ ends_process ]
  | ends_process ↦ ends_process
]

abbrev pub no_arguments : Arguments
no_arguments = record { size = 0; device = none; verbose = false; prints = true }

abbrev pub dev_file : List ℕ
dev_file = codes "/dev/nbd0"

-- The keys of the array of Run: its first element is the name of the program.
abbrev pub run_keys : List ArgpKey
run_keys = other_key ∷ key_arg 0 (codes "12M") ∷ key_arg 1 dev_file ∷ key_end 2 ∷ other_key ∷ []

pub data RunResult (R : Type 0) : Type 0 where
  -- The process ended in the parser.
  process_ends : RunResult R
  -- The result is -1, for a size of 0.
  no_size : RunResult R
  serves : R → RunResult R

-- Run, with the result of `buse_main` for a device and a size. The memory that it allocates is not
-- used.
unfoldable pub run : {R : Type 0} → (List ℕ → ℕ → R) → RunResult R
run buse_main = elim (argp_parse run_keys no_arguments) [
  | parsed a ↦ if a.size == 0 then no_size else serves (buse_main dev_file a.size)
  | err_unknown ↦ process_ends
  | ends_process ↦ process_ends
]
