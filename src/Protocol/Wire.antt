-- ===== src/Protocol/Wire.antt =====
-- Both ends read from a feature report what the other put there.
use mathlib.Core.List.{tail}
use hid_bootloader.Base.{ℕ, ◌^◌, ◌<◌, ◌≡◌, arith}
use hid_bootloader.Protocol.{
  BlCommand, command_bytes, command_of, BlStatus, status_bytes, status_of, u16_0, set_u16_0,
}

-- The device reads back the command code and the parameter that the host packed, once the report
-- number is taken off.
pub command_of-command_bytes :
    (c : BlCommand) → c.u32 < 2 ^ 32 → command_of (tail (command_bytes c)) ≡ c
unfolding command_of command_bytes
command_of-command_bytes c h = ground arith

-- The host reads back the status fields that the device packed, for a pointer of 16 bits.
pub status_of-status_bytes : (s : BlStatus) → s.page_ptr < 2 ^ 16 → status_of (status_bytes s) ≡ s
unfolding status_of status_bytes
status_of-status_bytes s h = ground arith

pub u16_0-set_u16_0 : (v : ℕ) (c : BlCommand) → v < 2 ^ 16 → u16_0 (set_u16_0 v c) ≡ v
u16_0-set_u16_0 v c h = omega arith
