-- ===== src/Raid.antt =====
-- raid01.hpp and raid01.cpp: which two minions hold the byte at an offset, and where.
pub mod Placement
use iot_drive.Shared.{ℕ, ◌+◌, ◌*◌, ◌/◌, ◌%◌, ltb, if◌then◌else◌, Outcome, ok, throws, fault}

abbrev pub kb : ℕ
kb = 1024

abbrev pub mb : ℕ
mb = 1024 * 1024

abbrev pub memory : ℕ
memory = 12 * 1024 * 1024

abbrev pub minion_size : ℕ
minion_size = 4 * 1024 * 1024

-- A minion by its index in `m_minion_proxy_vector`, which holds three, and an offset there.
pub record Target : Type 0 where
  pub minion : ℕ
  pub offset : ℕ

-- OffsetToProxy: the primary copy and the backup. The vector is not read behind its end.
unfoldable pub offset_to_proxy : ℕ → Outcome (Target × Target)
offset_to_proxy offset =
    let minion_idx = offset / minion_size in
    let minion_offset = offset % minion_size in
    if ltb minion_idx 3
    then ok (
      record { minion = minion_idx; offset = minion_offset },
      record { minion = (minion_idx + 1) % 3; offset = minion_offset + minion_size },
    )
    else fault
