-- ===== src/Dispatcher/Lifetime.antt =====
-- Callbacks that outlive their dispatcher.
use iot_drive.Shared.{
  ℕ, ◌≡◌, refl, ◌∙◌, inl, inr, true, false, not, ◌&&◌, ◌||◌, List, [], ◌∷◌, ◌++◌, All, ok, fault,
  ◌==◌, arith, Bool-cases,
}
use iot_drive.Dispatcher.{
  Dispatcher, new_dispatcher, remove, contains, register, unregister, drop_callback,
  drop_dispatcher, Event, registers, unregisters, drops, step, run,
}

contains-append : (k j : ℕ) (js : List ℕ) → contains k (js ++ j ∷ []) ≡ (j == k || contains k js)
unfolding contains
contains-append k j [] = refl
contains-append k j (i ∷ js) = ground (arith, contains-append k j js)

contains-remove :
    (k j : ℕ) (js : List ℕ) → contains k (remove j js) ≡ (not (j == k) && contains k js)
unfolding contains remove
contains-remove k j [] = ground arith
contains-remove k j (i ∷ js) = ground (arith, contains-remove k j js)

-- A callback that points to the dispatcher is in the list of one that is alive.
IsLinked : Dispatcher → Type 0
IsLinked d = (k : ℕ) → d.attached k ≡ true → (d.alive ≡ true) × (contains k d.callback_list ≡ true)

-- No call of Unregister but by the destructor of a callback.
abbrev pub Implicit : Event → Type 0
Implicit (registers k) = Unit
Implicit (unregisters k) = ⊥
Implicit (drops k) = Unit

register-IsLinked :
    (k : ℕ) (d : Dispatcher)
    → d.alive ≡ true
    → IsLinked d
    → (d' : Dispatcher) × (register k d ≡ ok d') × IsLinked d' × (d'.alive ≡ true)
unfolding register IsLinked
register-IsLinked k d a h = (
  record d { callback_list = d.callback_list ++ k ∷ []; attached = λ j. j == k || d.attached j },
  rw a refl,
  λ j e. ground (arith, h j, contains-append j k d.callback_list),
  a,
)

drop_callback-IsLinked :
    (k : ℕ) (d : Dispatcher)
    → IsLinked d
    → (d' : Dispatcher) × (drop_callback k d ≡ ok d') × IsLinked d' × (d'.alive ≡ d.alive)
unfolding drop_callback unregister IsLinked
drop_callback-IsLinked k d h = elim (Bool-cases (d.attached k)) [
  | inl e ↦ (
    record d {
      callback_list = remove k d.callback_list;
      attached = λ j. not (j == k) && d.attached j;
    },
    ground (arith, e, h k),
    λ j f. ground (arith, h j, contains-remove j k d.callback_list),
    refl,
  )
  | inr e ↦ (
    record d { attached = λ j. not (j == k) && d.attached j },
    ground (arith, e),
    λ j f. ground (arith, h j),
    refl,
  )
]

run-IsLinked :
    (es : List Event) (d : Dispatcher)
    → All Implicit es
    → d.alive ≡ true
    → IsLinked d
    → (d' : Dispatcher) × (run es d ≡ ok d') × IsLinked d' × (d'.alive ≡ true)
unfolding run step
run-IsLinked [] d n a h = (d, refl, h, a)
run-IsLinked (registers k ∷ es) d n a h =
    let (d₁, one, h₁, a₁) = register-IsLinked k d a h in
    let (d', rest, h', a') = run-IsLinked es d₁ n.1 a₁ h₁ in (d', rw one rest, h', a')
run-IsLinked (unregisters k ∷ es) d n a h = absurd n.0
run-IsLinked (drops k ∷ es) d n a h =
    let (d₁, one, h₁, a₁) = drop_callback-IsLinked k d h in
    let (d', rest, h', a') = run-IsLinked es d₁ n.1 (a₁ ∙ a) h₁ in (d', rw one rest, h', a')

-- The death of a linked dispatcher leaves no pointer to it.
drop_dispatcher-IsLinked :
    (d : Dispatcher)
    → d.alive ≡ true
    → IsLinked d
    → (d' : Dispatcher) × (drop_dispatcher d ≡ ok d') × IsLinked d'
unfolding drop_dispatcher IsLinked
drop_dispatcher-IsLinked d a h = (
  record {
    callback_list = [];
    attached = λ j. not (contains j d.callback_list) && d.attached j;
    alive = false;
  },
  rw a refl,
  λ k e. ground (arith, h k),
)

abbrev pub all_drops : List ℕ → List Event
all_drops [] = []
all_drops (k ∷ ks) = drops k ∷ all_drops ks

run-drops :
    (ks : List ℕ) (d : Dispatcher) → IsLinked d → (d' : Dispatcher) × (run (all_drops ks) d ≡ ok d')
unfolding run step
run-drops [] d h = (d, refl)
run-drops (k ∷ ks) d h =
    let (d₁, one, h₁, _) = drop_callback-IsLinked k d h in
    let (d', rest) = run-drops ks d₁ h₁ in (d', rw one rest)

-- Callbacks that are registered and destroyed in any order, then the death of the dispatcher, then
-- the destruction of callbacks in any order: nothing touches a dead dispatcher, if Unregister is
-- called by the destructors of callbacks alone.
pub lifetimes_safe :
    (es : List Event) (ks : List ℕ)
    → All Implicit es
    → (d : Dispatcher) × (d' : Dispatcher) × (d'' : Dispatcher) × (run es new_dispatcher ≡ ok d)
      × (drop_dispatcher d ≡ ok d')
      × (run (all_drops ks) d' ≡ ok d'')
unfolding IsLinked
lifetimes_safe es ks n =
    let (d, ran, h, a) = run-IsLinked es new_dispatcher n refl (λ k e. absurd cc) in
    let (d', died, h') = drop_dispatcher-IsLinked d a h in
    let (d'', dropped) = run-drops ks d' h' in (d, d', d'', ran, died, dropped)

-- A callback that is registered, then unregistered by a call of Unregister, and outlives the
-- dispatcher, calls the dead dispatcher in its destructor.
pub unregister_dangles :
    (k : ℕ) (d : Dispatcher)
    → d.alive ≡ true
    → (d₁ : Dispatcher) × (d₂ : Dispatcher) × (run (registers k ∷ unregisters k ∷ []) d ≡ ok d₁)
      × (drop_dispatcher d₁ ≡ ok d₂)
      × (drop_callback k d₂ ≡ fault)
unfolding run step register unregister drop_dispatcher drop_callback
unregister_dangles k d a = (
  record d {
    callback_list = remove k (d.callback_list ++ k ∷ []);
    attached = λ j. j == k || d.attached j;
  },
  record {
    callback_list = [];
    attached =
        λ j. not (contains j (remove k (d.callback_list ++ k ∷ []))) && (j == k || d.attached j);
    alive = false;
  },
  rw a refl,
  rw a refl,
  ground (arith, contains-remove k k (d.callback_list ++ k ∷ [])),
)
