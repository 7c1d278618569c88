-- ===== src/Protocol/Tests.antt =====
-- The structures of the protocol at concrete values.
use mathlib.Core.List.{tail}
use hid_bootloader.Base.{◌≡◌, arith}
use hid_bootloader.Protocol
use hid_bootloader.Protocol.{
  BlCommand, command_bytes, command_of, BlStatus, status_bytes, status_of,
}
use hid_bootloader.Protocol.Wire.{command_of-command_bytes, status_of-status_bytes}

abbrev read_at : BlCommand
read_at = record { command = Protocol.cmd_read_flash; u32 = 0x00012380 }

abbrev ready : BlStatus
ready = record { version = 1; busy_flags = 0; page_ptr = 0x01C0; result = 255 }

command_of-command_bytes_example : command_of (tail (command_bytes read_at)) ≡ read_at
command_of-command_bytes_example = command_of-command_bytes read_at (omega arith)

status_of-status_bytes_example : status_of (status_bytes ready) ≡ ready
status_of-status_bytes_example = status_of-status_bytes ready (omega arith)
