-- ===== src/DirMonitor/Events.antt =====
-- What Monitor makes of all events that the kernel writes.
use iot_drive.Shared.{
  ℕ, ◌⊎◌, inl, inr, Bool-cases, bind, zero, suc, ◌+◌, ◌-◌, ◌≤◌, ◌≡◌, refl, Bool, true, false, List,
  [], ◌∷◌, ◌++◌, Option, none, some, ok, arith, ◌==◌, if◌then◌else◌, length, drop, replicate, All,
  append_assoc, length-append, length-replicate, drop-append_exact, map,
}
use iot_drive.Buffer.{to_le}
use iot_drive.DirMonitor.{
  exits, goes_on, monitor_event, event_size, monitor_events, Seen, monitor, event_buffer,
  event_buf_len, nothing_seen, note,
}
use iot_drive.DirMonitor.Layout.{
  Event, IsEvent, header_of, is_plugin, is_exit, outcome_of, encode, monitor_event-header,
}

-- What the names of events come to, from the description of the events alone.
abbrev pub seen_of : List Event → Seen
seen_of [] = nothing_seen
seen_of (e ∷ es) =
    if is_exit e
    then record { names = []; returned = true }
    else note (if is_plugin e then some e.name else none) (seen_of es)

abbrev pub encode_all : List Event → List ℕ
encode_all [] = []
encode_all (e ∷ es) = encode e ++ encode_all es

length-encode : (e : Event) → length (encode e) ≡ event_size + (length e.name + e.pad)
unfolding encode header_of to_le
length-encode e =
    omega (arith, length-append e.name (replicate e.pad 0), length-replicate {A = ℕ} 0 e.pad)

encode-header :
    (e : Event) (rest : List ℕ)
    → encode e ++ rest ≡ header_of e (e.name ++ (replicate e.pad 0 ++ rest))
unfolding encode header_of to_le
encode-header e rest = rw (append_assoc e.name (replicate e.pad 0) rest) refl

monitor_events-encode :
    (es : List Event) (fuel : ℕ) (rest : List ℕ)
    → All IsEvent es
    → length (encode_all es) ≤ fuel
    → monitor_events fuel (length (encode_all es)) (encode_all es ++ rest) ≡ ok (some (seen_of es))
unfolding monitor_events
monitor_events-encode [] zero rest h enough = refl
monitor_events-encode [] (suc fuel) rest h enough = refl
monitor_events-encode (e ∷ es) zero rest h enough =
    absurd (omega (arith, length-append (encode e) (encode_all es), length-encode e))
monitor_events-encode (e ∷ es) (suc fuel) rest h enough =
    let n = event_size + (length e.name + e.pad) in
    let total = length-append (encode e) (encode_all es) in
    let size = length-encode e in
    let p : List ℕ = (encode e ++ encode_all es) ++ rest in
    let here : monitor_event p ≡ ok (outcome_of e) =
      rw (append_assoc (encode e) (encode_all es) rest, encode-header e (encode_all es ++ rest))
        (monitor_event-header e (encode_all es ++ rest) (h.0)) in
    let left : length (encode e ++ encode_all es) - n ≡ length (encode_all es) =
      omega (arith, total, size) in
    let next : drop n p ≡ encode_all es ++ rest =
      rw (append_assoc (encode e) (encode_all es) rest)
        (drop-append_exact n (encode e) (encode_all es ++ rest) size) in
    let ih = monitor_events-encode es fuel rest h.1 (omega (arith, total, size)) in
    let bit : (length (encode e ++ encode_all es) == 0) ≡ false = ground (arith, total, size) in
    rw (bit, here) (by_test (Bool-cases (is_exit e)) left next ih)
  where
    by_test :
        (is_exit e ≡ true) ⊎ (is_exit e ≡ false)
        → length (encode e ++ encode_all es) - (event_size + (length e.name + e.pad))
          ≡ length (encode_all es)
        → drop (event_size + (length e.name + e.pad)) ((encode e ++ encode_all es) ++ rest)
          ≡ encode_all es ++ rest
        → monitor_events fuel (length (encode_all es)) (encode_all es ++ rest)
          ≡ ok (some (seen_of es))
        → elim (outcome_of e) [
          | exits ↦ ok (some (record { names = []; returned = true }))
          | goes_on name n ↦
              bind
                (monitor_events fuel
                  (length (encode_all (e ∷ es)) - n)
                  (drop n (encode_all (e ∷ es) ++ rest)))
                λ rest. ok (elim rest [ none ↦ none | some s ↦ some (note name s) ])
        ]
          ≡ ok (some (seen_of (e ∷ es)))
    by_test (inl y) left next ih = rw y refl
    by_test (inr y) left next ih = rw (y, left, next, ih) refl

abbrev pub all_events : List (List Event) → List Event
all_events [] = []
all_events (es ∷ rest) = es ++ all_events rest

-- Names in front.
abbrev join : Seen → Seen → Seen
join s t = if s.returned then s else record t { names = s.names ++ t.names }

note-join : (name : Option (List ℕ)) (s t : Seen) → note name (join s t) ≡ join (note name s) t
unfolding note
note-join none s t = refl
note-join (some name) s t = by_returned s.names s.returned
  where
    by_returned :
        (names : List (List ℕ)) (b : Bool)
        → note (some name) (join (record { names = names; returned = b }) t)
          ≡ join (note (some name) (record { names = names; returned = b })) t
    by_returned names true = refl
    by_returned names false = refl

seen_of-append : (es fs : List Event) → seen_of (es ++ fs) ≡ join (seen_of es) (seen_of fs)
seen_of-append [] fs = refl
seen_of-append (e ∷ es) fs = elim (Bool-cases (is_exit e)) [
  | inl y ↦ rw y refl
  | inr y ↦
      rw (y, seen_of-append es fs)
        (note-join (if is_plugin e then some e.name else none) (seen_of es) (seen_of fs))
]

-- The rest of the loop of Monitor after one buffer.
after_buffer :
    (names : List (List ℕ)) (b : Bool) (t : Seen)
    → (if b
        then ok (some (record { names = names; returned = b }))
        else ok (some (record t { names = names ++ t.names })))
      ≡ ok (some (join (record { names = names; returned = b }) t))
after_buffer names true t = refl
after_buffer names false t = refl

-- The events of the directory, in the documented layout of the kernel and split into calls of `read`
-- in any way: Monitor notifies just the names that end in `.so` of the events that tell of a file
-- created or moved there, in their order, up to the `touch` of `exit.txt`, and returns just then. It
-- reads nothing outside of the buffer, names shorter than the suffix included.
pub monitor-encode :
    (batches : List (List Event))
    → All (All IsEvent) batches
    → monitor (map (λ es. some (encode_all es)) batches) ≡ ok (some (seen_of (all_events batches)))
unfolding monitor event_buffer
monitor-encode [] h = refl
monitor-encode (es ∷ batches) h =
    let s = seen_of es in
    let zeros : List ℕ = replicate (event_buf_len - length (encode_all es)) 0 in
    let one = monitor_events-encode es (length (encode_all es)) zeros h.0 (omega arith) in
    rw (seen_of-append es (all_events batches), one, monitor-encode batches h.1)
      (after_buffer s.names s.returned (seen_of (all_events batches)))
