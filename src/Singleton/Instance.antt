-- ===== src/Singleton/Instance.antt =====
-- Of any number of threads, one at most makes the instance, and what the others get.
use iot_drive.Shared.{
  ℕ, ◌≤◌, ◌≡◌, ◌≢◌, refl, sym, subst, ◌⊎◌, inl, inr, Bool, true, false, List, [], ◌∷◌, Option, none,
  some, ◌==◌, if◌then◌else◌, arith, ==_refl,
}
use native.Mathlib.Decide.{ℕ_discrete}
use iot_drive.Singleton.{
  Shared, Place, calls, init, supply, waits, checks, creates, stores, flags, unlocks, returns,
  supplied, start, advance, World, turn, run,
}

-- The shared variables by themselves.
record IsSound (s : Shared) : Type 0 where
  unset : s.instance ≡ none → s.supply_flag ≡ false
  only : (s.instance ≡ none) ⊎ (s.instance ≡ some 0)
  unlocked : s.lock ≡ none → s.instance ≡ none → s.made ≡ 0
  once : s.made ≤ 1

-- What a thread can count on at its place.
abbrev Holds : Shared → ℕ → Place → Type 0
Holds s t calls = Unit
Holds s t init = Unit
Holds s t waits = Unit
Holds s t supply = Unit
Holds s t (supplied temp) = (temp ≡ none) ⊎ ((s.instance ≡ some 0) × (temp ≡ some 0))
Holds s t checks = (s.lock ≡ some t) × (s.instance ≡ none → s.made ≡ 0)
Holds s t creates = (s.lock ≡ some t) × (s.instance ≡ none) × (s.made ≡ 0)
Holds s t (stores temp) = (s.lock ≡ some t) × (s.instance ≡ none) × (s.made ≡ 1) × (temp ≡ 0)
Holds s t (flags temp) = (s.lock ≡ some t) × (s.instance ≡ some 0) × (temp ≡ 0)
Holds s t (unlocks temp) = (s.lock ≡ some t) × (s.instance ≡ some 0) × (temp ≡ 0)
Holds s t (returns temp) = (s.instance ≡ some 0) × (temp ≡ some 0)

IsSound-advance :
    (fresh : Bool) (t : ℕ) (s : Shared) (p : Place)
    → IsSound s
    → Holds s t p
    → IsSound (advance fresh t s p).0
unfolding advance
IsSound-advance fresh t s calls h k = h
IsSound-advance fresh t s init h k = h
IsSound-advance fresh t s supply h k = h
IsSound-advance fresh t s checks h k = h
IsSound-advance fresh t s (returns temp) h k = h
IsSound-advance fresh t s (supplied temp) h k = h
IsSound-advance fresh t s waits h k = record {
  unset = ground (arith, h.unset);
  only = ground (arith, h.only);
  unlocked = ground (arith, h.unlocked);
  once = ground (arith, h.once);
}
IsSound-advance fresh t s creates h k = record {
  unset = h.unset;
  only = h.only;
  unlocked = ground arith;
  once = omega arith;
}
IsSound-advance fresh t s (stores temp) h k = record {
  unset = ground arith;
  only = ground arith;
  unlocked = ground arith;
  once = h.once;
}
IsSound-advance fresh t s (flags temp) h k = record {
  unset = ground arith;
  only = h.only;
  unlocked = ground arith;
  once = h.once;
}
IsSound-advance fresh t s (unlocks temp) h k = record {
  unset = h.unset;
  only = h.only;
  unlocked = ground arith;
  once = h.once;
}

Holds-advance :
    (fresh : Bool) (t : ℕ) (s : Shared) (p : Place)
    → IsSound s
    → Holds s t p
    → Holds (advance fresh t s p).0 t (advance fresh t s p).1
unfolding advance
Holds-advance fresh t s calls h k = ground arith
Holds-advance true t s init h k = ground (arith, h.only)
Holds-advance false t s init h k = tt
Holds-advance true t s supply h k = elim (h.only) [ inl e ↦ inl e | inr e ↦ inr (e, e) ]
Holds-advance false t s supply h k = inl refl
Holds-advance fresh t s (supplied temp) h k = k
Holds-advance fresh t s waits h k = ground (arith, h.unlocked)
Holds-advance fresh t s checks h k = ground (arith, h.only)
Holds-advance fresh t s creates h k = ground arith
Holds-advance fresh t s (stores temp) h k = ground arith
Holds-advance fresh t s (flags temp) h k = k
Holds-advance fresh t s (unlocks temp) h k = ground arith
Holds-advance fresh t s (returns temp) h k = k

-- A change that keeps a set instance, and all that the holder of the lock can see.
record Keeps (u : ℕ) (s s' : Shared) : Type 0 where
  set_stays : s.instance ≡ some 0 → s'.instance ≡ some 0
  lock_stays : s.lock ≡ some u → s'.lock ≡ some u
  instance_stays : s.lock ≡ some u → s'.instance ≡ s.instance
  made_stays : s.lock ≡ some u → s'.made ≡ s.made

Holds-Keeps : (u : ℕ) (s s' : Shared) (q : Place) → Keeps u s s' → Holds s u q → Holds s' u q
Holds-Keeps u s s' calls f k = k
Holds-Keeps u s s' init f k = k
Holds-Keeps u s s' waits f k = k
Holds-Keeps u s s' supply f k = k
Holds-Keeps u s s' (supplied temp) f (inl e) = inl e
Holds-Keeps u s s' (supplied temp) f (inr k) = inr (f.set_stays k.0, k.1)
Holds-Keeps u s s' checks f k = ground (arith, f.lock_stays, f.instance_stays, f.made_stays)
Holds-Keeps u s s' creates f k = ground (arith, f.lock_stays, f.instance_stays, f.made_stays)
Holds-Keeps u s s' (stores temp) f k = ground (arith, f.lock_stays, f.instance_stays, f.made_stays)
Holds-Keeps u s s' (flags temp) f k = (f.lock_stays k.0, f.set_stays k.1, k.2)
Holds-Keeps u s s' (unlocks temp) f k = (f.lock_stays k.0, f.set_stays k.1, k.2)
Holds-Keeps u s s' (returns temp) f k = (f.set_stays k.0, k.1)

Keeps-same : (u : ℕ) (s : Shared) → Keeps u s s
Keeps-same u s = record {
  set_stays = λ h. h;
  lock_stays = λ h. h;
  instance_stays = λ h. refl;
  made_stays = λ h. refl;
}

advance-Keeps :
    (fresh : Bool) (t u : ℕ) (s : Shared) (p : Place)
    → u ≢ t
    → Holds s t p
    → Keeps u s (advance fresh t s p).0
unfolding advance
advance-Keeps fresh t u s calls ne k = Keeps-same u s
advance-Keeps fresh t u s init ne k = Keeps-same u s
advance-Keeps fresh t u s supply ne k = Keeps-same u s
advance-Keeps fresh t u s checks ne k = Keeps-same u s
advance-Keeps fresh t u s (returns temp) ne k = Keeps-same u s
advance-Keeps fresh t u s (supplied temp) ne k = Keeps-same u s
advance-Keeps fresh t u s waits ne k = record {
  set_stays = ground arith;
  lock_stays = ground arith;
  instance_stays = ground arith;
  made_stays = ground arith;
}
advance-Keeps fresh t u s creates ne k = record {
  set_stays = ground arith;
  lock_stays = ground arith;
  instance_stays = ground arith;
  made_stays = ground arith;
}
advance-Keeps fresh t u s (stores temp) ne k = record {
  set_stays = ground arith;
  lock_stays = ground arith;
  instance_stays = ground arith;
  made_stays = ground arith;
}
advance-Keeps fresh t u s (flags temp) ne k = record {
  set_stays = λ h. h;
  lock_stays = λ h. h;
  instance_stays = λ h. refl;
  made_stays = λ h. refl;
}
advance-Keeps fresh t u s (unlocks temp) ne k = record {
  set_stays = ground arith;
  lock_stays = ground arith;
  instance_stays = ground arith;
  made_stays = ground arith;
}

-- The state of all threads.
pub record IsSafe (w : World) : Type 0 where
  sound : IsSound w.shared
  holds : (t : ℕ) → Holds w.shared t (w.place t)

turn-IsSafe : (fresh : Bool) (t : ℕ) (w : World) → IsSafe w → IsSafe (turn (t, fresh) w)
unfolding turn
turn-IsSafe fresh t w h =
    let p = w.place t in
    let s = w.shared in
    record {
      sound = IsSound-advance fresh t s p h.sound (h.holds t);
      holds = λ u. elim (ℕ_discrete u t) [
        | yes e ↦
            subst
              (λ v.
                Holds (advance fresh t s p).0 v
                  (if v == t then (advance fresh t s p).1 else w.place v))
              (sym e)
              (subst
                (λ b. Holds (advance fresh t s p).0 t (if b then (advance fresh t s p).1 else p))
                (sym (==_refl t)) (Holds-advance fresh t s p h.sound (h.holds t)))
        | no ne ↦
            subst
              (λ b.
                Holds (advance fresh t s p).0 u (if b then (advance fresh t s p).1 else w.place u))
              (sym (let e : (u == t) ≡ false = ground arith in e))
              (Holds-Keeps u s (advance fresh t s p).0 (w.place u)
                (advance-Keeps fresh t u s p ne (h.holds t)) (h.holds u))
      ];
    }

run-IsSafe : (ts : List (ℕ × Bool)) (w : World) → IsSafe w → IsSafe (run ts w)
unfolding run
run-IsSafe [] w h = h
run-IsSafe ((t, fresh) ∷ ts) w h = run-IsSafe ts (turn (t, fresh) w) (turn-IsSafe fresh t w h)

start-IsSafe : IsSafe (record { shared = start; place = λ t. calls })
start-IsSafe = record {
  sound = record { unset = λ e. refl; only = inl refl; unlocked = λ e f. refl; once = omega arith };
  holds = λ t. tt;
}

-- Threads that call GetInstance, scheduled in any order, and whose reads without the mutex may each be
-- old: one object at most is made; what Init returns is that object, and never a null pointer; and
-- what Supply returns is that object or a null pointer.
pub run_once :
    (ts : List (ℕ × Bool))
    → ((run ts (record { shared = start; place = λ t. calls })).shared.made ≤ 1)
      × ((t : ℕ) (temp : Option ℕ)
          → (run ts (record { shared = start; place = λ t. calls })).place t ≡ returns temp
          → temp ≡ some 0)
      × ((t : ℕ) (temp : Option ℕ)
          → (run ts (record { shared = start; place = λ t. calls })).place t ≡ supplied temp
          → (temp ≡ none) ⊎ (temp ≡ some 0))
run_once ts =
    let w : World = run ts (record { shared = start; place = λ t. calls }) in
    let safe = run-IsSafe ts (record { shared = start; place = λ t. calls }) start-IsSafe in
    (
      safe.sound.once,
      λ t temp e. (subst (Holds w.shared t) e (safe.holds t)).1,
      λ t temp e. elim (subst (Holds w.shared t) e (safe.holds t)) [
        | inl null ↦ inl null
        | inr k ↦ inr k.1
      ],
    )
