-- ===== src/Examples/Plugins.antt =====
-- The monitor of plug-ins, the sockets and the command line.
use iot_drive.Shared.{
  ℕ, ◌*◌, ◌%◌, ◌^◌, ◌≡◌, refl, true, false, List, [], ◌∷◌, ◌++◌, Option, none, some, ok, codes,
  same_text, map, arith, All, length, if◌then◌else◌,
}
use Prim.Native.Nat.{min}
use iot_drive.DirMonitor.{Seen, monitor, plugin_path}
use iot_drive.DirMonitor.Layout.{Event, IsEvent}
use iot_drive.DirMonitor.Events.{encode_all, seen_of, all_events, monitor-encode}
use iot_drive.DirMonitor.Loader.{
  File, load_all, new_loader, drop_loader, open_all, libraries, drop_loader-load_all,
}
use iot_drive.Socket.{server, Attempt, new_stream_socket}
use iot_drive.Socket.Opening.{MadeFor, new_stream_socket-Opened}
use iot_drive.Nbd.Options.{strtoull_with_prefix, max_u64}
use iot_drive.Nbd.Options.Sizes.{print, mega, text_of, factor_of, strtoull_with_prefix-print}

-- A library that is created, a file with a short name, and the touch of the destructor.
abbrev created : Event
created = record { wd = 1; mask = 256; cookie = 0; name = codes "raid.so"; pad = 9 }

abbrev short : Event
short = record { wd = 1; mask = 256; cookie = 0; name = codes "a"; pad = 15 }

abbrev touched : Event
touched = record { wd = 1; mask = 4; cookie = 0; name = codes "exit.txt"; pad = 8 }

created-IsEvent : IsEvent created
created-IsEvent = record {
  mask_fits = omega arith;
  name_fits = omega arith;
  no_zero = ground arith;
  terminated = λ h. omega arith;
  padded = λ h. omega arith;
}

short-IsEvent : IsEvent short
short-IsEvent = record {
  mask_fits = omega arith;
  name_fits = omega arith;
  no_zero = ground arith;
  terminated = λ h. omega arith;
  padded = λ h. omega arith;
}

touched-IsEvent : IsEvent touched
touched-IsEvent = record {
  mask_fits = omega arith;
  name_fits = omega arith;
  no_zero = ground arith;
  terminated = λ h. omega arith;
  padded = λ h. omega arith;
}

abbrev batches : List (List Event)
batches = (short ∷ created ∷ []) ∷ (touched ∷ created ∷ []) ∷ []

batches-IsEvent : All (All IsEvent) batches
batches-IsEvent =
    ((short-IsEvent, (created-IsEvent, tt)), ((touched-IsEvent, (created-IsEvent, tt)), tt))

monitor-encode_example :
    monitor (map (λ es. some (encode_all es)) batches) ≡ ok (some (seen_of (all_events batches)))
monitor-encode_example = monitor-encode batches batches-IsEvent

one_name : seen_of (all_events batches) ≡ record { names = codes "raid.so" ∷ []; returned = true }
unfolding iot_drive.DirMonitor.note
one_name = refl

-- Every file is a library but the broken one.
abbrev opens : List ℕ → Option ℕ
opens path = if same_text path (codes "./plugins/bad.so") then none else some (length path)

abbrev files : List File
files =
    record { name = codes "raid.so"; is_regular_file = true }
    ∷ record { name = codes "notes.txt"; is_regular_file = true }
    ∷ []

drop_loader-load_all_example :
    drop_loader (
      load_all opens
        (map (plugin_path (codes "./plugins")) (codes "bad.so" ∷ []))
        (new_loader opens (codes "./plugins") files))
    ≡ open_all opens (
        map (plugin_path (codes "./plugins")) (libraries files)
        ++ map (plugin_path (codes "./plugins")) (codes "bad.so" ∷ []))
drop_loader-load_all_example =
    drop_loader-load_all opens (codes "./plugins") files (codes "bad.so" ∷ [])

-- The first address has no socket, the second is taken, the third is free.
abbrev addresses : List Attempt
addresses =
    record { socket_fd = none; sets_option = false; binds = false }
    ∷ record { socket_fd = some 5; sets_option = true; binds = false }
    ∷ record { socket_fd = some 5; sets_option = true; binds = true }
    ∷ []

new_stream_socket-Opened_example :
    MadeFor server
      (some addresses)
      (new_stream_socket server (some addresses) none (0 ∷ []))
      (0 ∷ [])
new_stream_socket-Opened_example = new_stream_socket-Opened server (some addresses) none (0 ∷ [])

strtoull_with_prefix-print_example :
    strtoull_with_prefix (print 12 ++ text_of mega) ≡ (min 12 max_u64 * factor_of mega % 2 ^ 64, [])
strtoull_with_prefix-print_example = strtoull_with_prefix-print 12 mega
