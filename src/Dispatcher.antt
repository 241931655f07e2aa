-- ===== src/Dispatcher.antt =====
-- dispatcher.hpp: a dispatcher and its callbacks, which know each other by plain pointers.
pub mod Lifetime
use iot_drive.Shared.{
  ℕ, Bool, true, false, not, ◌&&◌, ◌||◌, List, [], ◌∷◌, ◌++◌, Outcome, ok, fault, bind, ◌==◌,
  if◌then◌else◌,
}

-- A dispatcher of callbacks by number. `attached` is whether the callback's `m_dispatcher` points to
-- it, and `alive` whether it is still there.
pub record Dispatcher : Type 0 where
  pub callback_list : List ℕ
  pub attached : ℕ → Bool
  pub alive : Bool

abbrev pub new_dispatcher : Dispatcher
new_dispatcher = record { callback_list = []; attached = λ k. false; alive = true }

unfoldable pub remove : ℕ → List ℕ → List ℕ
remove k [] = []
remove k (j ∷ js) = if j == k then remove k js else j ∷ remove k js

unfoldable pub contains : ℕ → List ℕ → Bool
contains k [] = false
contains k (j ∷ js) = j == k || contains k js

-- Register, with SetDispatcher of the callback.
unfoldable pub register : ℕ → Dispatcher → Outcome Dispatcher
register k d =
    if d.alive
    then ok (record d {
      callback_list = d.callback_list ++ k ∷ [];
      attached = λ j. j == k || d.attached j;
    })
    else fault

-- Unregister; `m_dispatcher` of the callback stays.
unfoldable pub unregister : ℕ → Dispatcher → Outcome Dispatcher
unregister k d =
    if d.alive then ok (record d { callback_list = remove k d.callback_list }) else fault

-- Notify: the callbacks that are called, in order.
unfoldable pub notify : Dispatcher → Outcome (List ℕ)
notify d = if d.alive then ok d.callback_list else fault

-- The destructor of a callback, after which it is gone.
unfoldable pub drop_callback : ℕ → Dispatcher → Outcome Dispatcher
unfolding unregister
drop_callback k d =
    bind (if d.attached k then unregister k d else ok d)
      λ d'. ok (record d' { attached = λ j. not (j == k) && d'.attached j })

-- The destructor, with NotifyDeath of the callbacks in the list.
unfoldable pub drop_dispatcher : Dispatcher → Outcome Dispatcher
drop_dispatcher d =
    if d.alive
    then ok (record {
      callback_list = [];
      attached = λ j. not (contains j d.callback_list) && d.attached j;
      alive = false;
    })
    else fault

pub data Event : Type 0 where
  registers unregisters drops : ℕ → Event

unfoldable pub step : Event → Dispatcher → Outcome Dispatcher
step (registers k) d = register k d
step (unregisters k) d = unregister k d
step (drops k) d = drop_callback k d

unfoldable pub run : List Event → Dispatcher → Outcome Dispatcher
run [] d = ok d
run (e ∷ es) d = bind (step e d) (run es)
