-- ===== src/DirMonitor/Loader.antt =====
-- DLLLoader of dirmonitor.cpp: the plug-ins that are there, those that come, and their handles. The
-- system's `dlopen` is a parameter; it gives NULL, here `none`, for a file that is no library.
use iot_drive.Shared.{
  ℕ, suc, ◌-◌, ◌<◌, ◌≡◌, refl, ap, Bool, true, false, not, ◌&&◌, ◌||◌, List, [], ◌∷◌, ◌++◌, Option,
  none, some, Outcome, ok, fault, bind, ◌==◌, if◌then◌else◌, arith, length, drop, codes, same_text,
  same_text-eq, sym, ◌∙◌, map, append-nil, append_assoc,
}
use mathlib.Core.List.{map-append}
use iot_drive.DirMonitor.{plugin_path}
use iot_drive.DirMonitor.Layout.{ending}

-- A file that the iterator of the directory comes to.
pub record File : Type 0 where
  pub name : List ℕ
  pub is_regular_file : Bool

-- The part of a text from its last dot on.
unfoldable pub from_last_dot : List ℕ → Option (List ℕ)
from_last_dot [] = none
from_last_dot (b ∷ bs) = elim (from_last_dot bs) [
  | some s ↦ some s
  | none ↦ if b == 46 then some (b ∷ bs) else none
]

-- `path::extension()` of a file name: a dot that is its first character does not count.
unfoldable pub extension : List ℕ → List ℕ
extension [] = []
extension (b ∷ bs) =
    if same_text (b ∷ bs) (codes "..")
    then []
    else elim (from_last_dot bs) [ some s ↦ s | none ↦ [] ]

unfoldable pub is_library : File → Bool
is_library f = f.is_regular_file && same_text (extension f.name) (codes ".so")

pub record DllLoader (H : Type 0) : Type 0 where
  pub dll_list : List (Option H)

module _ {H : Type 0} (dlopen : List ℕ → Option H) where
  unfoldable pub load : List ℕ → DllLoader H → DllLoader H
  load lib d = record { dll_list = d.dll_list ++ dlopen lib ∷ [] }

  -- Load of each path in turn: the callback of the loader under the notifications of the monitor.
  unfoldable pub load_all : List (List ℕ) → DllLoader H → DllLoader H
  load_all [] d = d
  load_all (lib ∷ libs) d = load_all libs (load lib d)

  -- The loop of the constructor.
  unfoldable pub load_present : List ℕ → List File → DllLoader H → DllLoader H
  load_present dir [] d = d
  load_present dir (f ∷ fs) d =
      load_present dir fs (if is_library f then load (plugin_path dir f.name) d else d)

  unfoldable pub new_loader : List ℕ → List File → DllLoader H
  new_loader dir files = load_present dir files (record { dll_list = [] })

-- The destructor: the handles that `dlclose` gets. It follows the pointer that it gets.
unfoldable pub close_all : {H : Type 0} → List (Option H) → Outcome (List H)
close_all [] = ok []
close_all (none ∷ hs) = fault
close_all (some h ∷ hs) = bind (close_all hs) λ closed. ok (h ∷ closed)

unfoldable pub drop_loader : {H : Type 0} → DllLoader H → Outcome (List H)
drop_loader d = close_all d.dll_list

-- Whether a text ends in `.so`, by its suffixes.
abbrev ends_in_so : List ℕ → Bool
ends_in_so [] = false
ends_in_so (b ∷ bs) = same_text (b ∷ bs) (codes ".so") || ends_in_so bs

ends_in_so_short : (s : List ℕ) → length s < 3 → ends_in_so s ≡ false
ends_in_so_short [] h = refl
ends_in_so_short (x ∷ []) h = ground arith
ends_in_so_short (x ∷ y ∷ []) h = ground arith
ends_in_so_short (x ∷ y ∷ z ∷ s) h = absurd (omega arith)

ending-ends_in_so : (s : List ℕ) → same_text (ending s) (codes ".so") ≡ ends_in_so s
ending-ends_in_so [] = refl
ending-ends_in_so (x ∷ []) = ground arith
ending-ends_in_so (x ∷ y ∷ []) = ground arith
ending-ends_in_so (x ∷ y ∷ z ∷ []) = ground arith
ending-ends_in_so (x ∷ y ∷ z ∷ w ∷ s) =
    let one : suc (suc (suc (suc (length s)))) - 3 ≡ suc (length s) = omega arith in
    let less : suc (suc (suc (length s))) - 3 ≡ length s = omega arith in
    let ih = ending-ends_in_so (y ∷ z ∷ w ∷ s) in
    rw one (sym (ap (λ k. same_text (drop k (y ∷ z ∷ w ∷ s)) (codes ".so")) less) ∙ ih ∙ longer)
  where
    longer : ends_in_so (y ∷ z ∷ w ∷ s) ≡ ends_in_so (x ∷ y ∷ z ∷ w ∷ s)
    longer = ground arith

no_dot_in_so : (s : List ℕ) → same_text s (codes "so") ≡ true → from_last_dot s ≡ none
unfolding from_last_dot
no_dot_in_so s h = rw (same_text-eq s (codes "so") h) refl

abbrev or_empty : Option (List ℕ) → List ℕ
or_empty o = elim o [ some t ↦ t | none ↦ [] ]

from_last_dot-ends_in_so :
    (s : List ℕ) → same_text (or_empty (from_last_dot s)) (codes ".so") ≡ ends_in_so s
unfolding from_last_dot
from_last_dot-ends_in_so [] = refl
from_last_dot-ends_in_so (b ∷ s) = by_rest (from_last_dot s) refl (from_last_dot-ends_in_so s)
  where
    by_rest :
        (o : Option (List ℕ))
        → from_last_dot s ≡ o
        → same_text (or_empty o) (codes ".so") ≡ ends_in_so s
        → same_text
            (or_empty (elim o [ some t ↦ some t | none ↦ if b == 46 then some (b ∷ s) else none ]))
            (codes ".so")
          ≡ ends_in_so (b ∷ s)
    by_rest none e ih = ground arith
    by_rest (some t) e ih = ground (arith, no_dot_in_so s)

not_dots : (s : List ℕ) → same_text s (codes ".") ≡ true → ends_in_so s ≡ false
not_dots s h = rw (same_text-eq s (codes ".") h) refl

-- The extension of a name, by its ending: a file whose whole name is `.so` has none.
extension-ending :
    (name : List ℕ)
    → same_text (extension name) (codes ".so")
      ≡ (same_text (ending name) (codes ".so") && not (same_text name (codes ".so")))
unfolding extension
extension-ending [] = refl
extension-ending (b ∷ s) =
    ground
      (arith, ending-ends_in_so (b ∷ s), from_last_dot-ends_in_so s, no_dot_in_so s, not_dots s)

-- What opening all of some paths gives, if it can be done.
abbrev pub open_all : {H : Type 0} → (List ℕ → Option H) → List (List ℕ) → Outcome (List H)
open_all dlopen [] = ok []
open_all dlopen (lib ∷ libs) = elim (dlopen lib) [
  | none ↦ fault
  | some h ↦ bind (open_all dlopen libs) λ hs. ok (h ∷ hs)
]

module _ {H : Type 0} (dlopen : List ℕ → Option H) where
  load_all-map :
      (libs : List (List ℕ)) (d : DllLoader H)
      → (load_all dlopen libs d).dll_list ≡ d.dll_list ++ map dlopen libs
  unfolding load_all load
  load_all-map [] d = sym (append-nil d.dll_list)
  load_all-map (lib ∷ libs) d =
      rw (load_all-map libs (load dlopen lib d))
        (append_assoc d.dll_list (dlopen lib ∷ []) (map dlopen libs))

  close_all-map : (libs : List (List ℕ)) → close_all (map dlopen libs) ≡ open_all dlopen libs
  unfolding close_all
  close_all-map [] = refl
  close_all-map (lib ∷ libs) = by_handle (dlopen lib) (close_all-map libs)
    where
      by_handle :
          (o : Option H)
          → close_all (map dlopen libs) ≡ open_all dlopen libs
          → close_all (o ∷ map dlopen libs)
            ≡ elim o [ none ↦ fault | some h ↦ bind (open_all dlopen libs) λ hs. ok (h ∷ hs) ]
      by_handle none ih = refl
      by_handle (some h) ih = rw ih refl

-- The regular files that end in `.so`, by their names.
abbrev pub libraries : List File → List (List ℕ)
libraries [] = []
libraries (f ∷ fs) =
    if f.is_regular_file
      && (same_text (ending f.name) (codes ".so") && not (same_text f.name (codes ".so")))
    then f.name ∷ libraries fs
    else libraries fs

module _ {H : Type 0} (dlopen : List ℕ → Option H) (dir : List ℕ) where
  load_present-load_all :
      (files : List File) (d : DllLoader H)
      → load_present dlopen dir files d
        ≡ load_all dlopen (map (plugin_path dir) (libraries files)) d
  unfolding load_present load_all is_library
  load_present-load_all [] d = refl
  load_present-load_all (f ∷ fs) d = ground (
    arith,
    extension-ending f.name,
    load_present-load_all fs d,
    load_present-load_all fs (load dlopen (plugin_path dir f.name) d),
  )

  -- The destructor of a loader that was made over some files, and then told of some names, closes
  -- just the handles of the regular files that end in `.so`, the name `.so` excepted, and of these names, in this order,
  -- if all of them could be opened. If one could not, it gives NULL to `dlclose`.
  pub drop_loader-load_all :
      (files : List File) (names : List (List ℕ))
      → drop_loader (load_all dlopen (map (plugin_path dir) names) (new_loader dlopen dir files))
        ≡ open_all dlopen (map (plugin_path dir) (libraries files) ++ map (plugin_path dir) names)
  unfolding drop_loader new_loader
  drop_loader-load_all files names =
      let empty : DllLoader H = record { dll_list = [] } in
      let present = map (plugin_path dir) (libraries files) in
      let later = map (plugin_path dir) names in
      ap close_all (
        load_all-map dlopen later (load_present dlopen dir files empty)
        ∙ ap (λ d. d.dll_list ++ map dlopen later) (load_present-load_all files empty)
        ∙ ap (λ hs. hs ++ map dlopen later) (load_all-map dlopen present empty)
        ∙ sym (map-append dlopen present later))
      ∙ close_all-map dlopen (present ++ later)
