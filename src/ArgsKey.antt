-- ===== src/ArgsKey.antt =====
-- argskey.hpp and argskey.cpp: what a decoded request hands to its command. The classes under
-- IArgsKey are the constructors.
use iot_drive.Shared.{ℕ, List, Option}
use iot_drive.Message.Identity.{Uid}

pub data ArgsKey : Type 0 where
  read_args : ℕ → ℕ → ℕ → ArgsKey
  write_args : ℕ → ℕ → ℕ → Option (List ℕ) → ArgsKey
  minion_read_args : ℕ → ℕ → ℕ → Uid → ArgsKey
  minion_write_args : ℕ → ℕ → ℕ → Option (List ℕ) → Uid → ArgsKey

abbrev pub read_cmd_key : ℕ
read_cmd_key = 1

abbrev pub write_cmd_key : ℕ
write_cmd_key = 2

abbrev pub minion_read_cmd_key : ℕ
minion_read_cmd_key = 20

abbrev pub minion_write_cmd_key : ℕ
minion_write_cmd_key = 21

unfoldable pub get_key : ArgsKey → ℕ
get_key (read_args key offset size) = key
get_key (write_args key offset size bytes) = key
get_key (minion_read_args key offset size uid) = key
get_key (minion_write_args key offset size bytes uid) = key
