-- ===== src/DirMonitor/Layout.antt =====
-- One event in the documented layout of inotify, and what Monitor makes of it.
use iot_drive.Shared.{
  ℕ, zero, suc, ◌+◌, ◌-◌, ◌/◌, ◌%◌, ◌≤◌, ◌<◌, ◌≡◌, refl, ap, ◌∙◌, ◌≢◌, Bool, true, false, ◌&&◌,
  ◌||◌, List, [], ◌∷◌, ◌++◌, none, some, ok, arith, if◌then◌else◌, length, drop, replicate, All,
  codes, same_text, same_text-eq,
}
use iot_drive.Buffer.{to_le, capacity, of_le-to_le}
use iot_drive.DirMonitor.{
  in_attrib, in_moved_to, in_create, load_word, c_string, Round, exits, goes_on, monitor_name,
  monitor_event, event_size,
}

-- An event as the kernel has it: `pad` zeros follow the name.
pub record Event : Type 0 where
  pub wd : ℕ
  pub mask : ℕ
  pub cookie : ℕ
  pub name : List ℕ
  pub pad : ℕ

unfoldable pub header_of : Event → List ℕ → List ℕ
header_of e q =
    to_le 4 e.wd ++ to_le 4 e.mask ++ to_le 4 e.cookie ++ to_le 4 (length e.name + e.pad) ++ q

-- A name with at least one zero behind it, or none at all; names are shorter than 64 KB.
pub record IsEvent (e : Event) : Type 0 where
  pub mask_fits : e.mask < capacity 4
  pub name_fits : length e.name + e.pad < 65536
  pub no_zero : All (λ b. b ≢ 0) e.name
  pub terminated : 0 < length e.name + e.pad → 0 < length e.name
  pub padded : 0 < length e.name → 0 < e.pad

load_word-len :
    (e : Event) (q : List ℕ) → IsEvent e → load_word 12 (header_of e q) ≡ ok (length e.name + e.pad)
unfolding load_word header_of to_le
load_word-len e q h =
    ground (arith, of_le-to_le 4 (length e.name + e.pad) (omega (arith, h.name_fits)))

load_word-mask : (e : Event) (q : List ℕ) → IsEvent e → load_word 4 (header_of e q) ≡ ok e.mask
unfolding load_word header_of to_le
load_word-mask e q h = ground (arith, of_le-to_le 4 e.mask h.mask_fits)

c_string-append : (s r : List ℕ) → All (λ b. b ≢ 0) s → c_string (s ++ 0 ∷ r) ≡ ok s
unfolding c_string
c_string-append [] r h = refl
c_string-append (b ∷ s) r h = ground (arith, h.0, c_string-append s r h.1)

-- The last three characters, or all of a shorter name.
abbrev pub ending : List ℕ → List ℕ
ending name = drop (length name - 3) name

drop-header :
    (e : Event) (q : List ℕ)
    → IsEvent e
    → drop 13 (header_of e q) ≡ (length e.name + e.pad) / 256 % 256 ∷ 0 ∷ 0 ∷ q
unfolding header_of to_le
drop-header e q h =
    let n = length e.name + e.pad in
    let high : n / 256 / 256 % 256 ≡ 0 = omega (arith, h.name_fits) in
    let top : n / 256 / 256 / 256 % 256 ≡ 0 = omega (arith, h.name_fits) in rw (high, top) refl

drop-header_all : (e : Event) (q : List ℕ) → drop event_size (header_of e q) ≡ q
unfolding header_of to_le
drop-header_all e q = refl

All-drop : (k : ℕ) (s : List ℕ) → All (λ b. b ≢ 0) s → All (λ b. b ≢ 0) (drop k s)
All-drop zero s h = h
All-drop (suc k) [] h = h
All-drop (suc k) (b ∷ s) h = All-drop k s h.1

drop-append_left : (k : ℕ) (s r : List ℕ) → k ≤ length s → drop k (s ++ r) ≡ drop k s ++ r
drop-append_left zero s r h = refl
drop-append_left (suc k) [] r h = absurd (omega arith)
drop-append_left (suc k) (b ∷ s) r h = drop-append_left k s r (omega arith)

-- The string that begins three bytes in front of the end of a name: a name that is shorter makes it
-- begin in the two high bytes of `len`, which are zero.
c_string-ending :
    (l : ℕ) (name r : List ℕ)
    → 0 < length name
    → All (λ b. b ≢ 0) name
    → (t : List ℕ) × (c_string (drop (length name) (l ∷ 0 ∷ 0 ∷ name ++ 0 ∷ r)) ≡ ok t)
      × (same_text t (codes ".so") ≡ same_text (ending name) (codes ".so"))
unfolding c_string
c_string-ending l [] r some_name h = absurd (omega arith)
c_string-ending l (x ∷ []) r some_name h = ([], refl, ground arith)
c_string-ending l (x ∷ y ∷ []) r some_name h = ([], refl, ground arith)
c_string-ending l (x ∷ y ∷ z ∷ s) r some_name h = (
  drop (length s) (x ∷ y ∷ z ∷ s),
  rw (drop-append_left (length s) (x ∷ y ∷ z ∷ s) (0 ∷ r) (omega arith))
      (c_string-append (drop (length s) (x ∷ y ∷ z ∷ s)) r (All-drop (length s) (x ∷ y ∷ z ∷ s) h)),
  ap (λ k. same_text (drop k (x ∷ y ∷ z ∷ s)) (codes ".so"))
      (let e : length s ≡ suc (suc (suc (length s))) - 3 = omega arith in e),
)

-- A plug-in has come: a name that ends in `.so`, created or moved into the directory.
abbrev pub is_plugin : Event → Bool
is_plugin e = same_text (ending e.name) (codes ".so") && (in_create e.mask || in_moved_to e.mask)

-- The `touch` of the destructor.
abbrev pub is_exit : Event → Bool
is_exit e = same_text e.name (codes "exit.txt") && in_attrib e.mask

abbrev pub outcome_of : Event → Round
outcome_of e =
    if is_exit e
    then exits
    else goes_on (if is_plugin e then some e.name else none) (event_size + (length e.name + e.pad))

unfoldable pub encode : Event → List ℕ
encode e = header_of e (e.name ++ replicate e.pad 0)

exit_text :
    (name : List ℕ)
    → same_text name (codes "exit.txt") ≡ true
    → same_text (ending name) (codes ".so") ≡ false
exit_text name h = rw (same_text-eq name (codes "exit.txt") h) refl

monitor_name-outcome :
    (e : Event) (p : List ℕ) (t : List ℕ)
    → c_string (drop (length e.name) (drop 13 p)) ≡ ok t
    → same_text t (codes ".so") ≡ same_text (ending e.name) (codes ".so")
    → monitor_name e.mask (length e.name + e.pad) p e.name ≡ ok (outcome_of e)
unfolding monitor_name
monitor_name-outcome e p t read same = ground (arith, read, same, exit_text e.name)

pub monitor_event-header :
    (e : Event) (rest : List ℕ)
    → IsEvent e
    → monitor_event (header_of e (e.name ++ (replicate e.pad 0 ++ rest))) ≡ ok (outcome_of e)
unfolding monitor_event
monitor_event-header e rest h = by_name e.name e.pad h
  where
    by_name :
        (name : List ℕ) (pad : ℕ)
        → IsEvent (record e { name = name; pad = pad })
        → monitor_event
            (header_of (record e { name = name; pad = pad }) (name ++ (replicate pad 0 ++ rest)))
          ≡ ok (outcome_of (record e { name = name; pad = pad }))
    by_name [] zero h = rw (load_word-len (record e { name = []; pad = 0 }) rest h) refl
    by_name [] (suc pad) h = absurd (let x = h.terminated (omega arith) in omega arith)
    by_name (x ∷ s) zero h = absurd (let x = h.padded (omega arith) in omega arith)
    by_name (x ∷ s) (suc pad) h =
        let f : Event = record e { name = x ∷ s; pad = suc pad } in
        let q = (x ∷ s) ++ (0 ∷ (replicate pad 0 ++ rest)) in
        let (t, read, same) =
          c_string-ending ((length f.name + f.pad) / 256 % 256) f.name (replicate pad 0 ++ rest)
            (omega arith) h.no_zero in
        let cut : drop (length f.name) (drop 13 (header_of f q))
            ≡ drop (length f.name) ((length f.name + f.pad) / 256 % 256 ∷ 0 ∷ 0 ∷ q) =
          ap (drop (length f.name)) (drop-header f q h) in
        ground (
          arith,
          load_word-len f q h,
          load_word-mask f q h,
          drop-header_all f q,
          c_string-append f.name (replicate pad 0 ++ rest) h.no_zero,
          monitor_name-outcome f (header_of f q) t (ap c_string cut ∙ read) same,
        )
