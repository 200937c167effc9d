-- ===== src/Ps2.antt =====
-- src/os/src/drivers/ps2.c: the PS/2 controller, polled through its ports.
pub mod Port
pub mod Checks
pub mod Init
pub mod Wait
pub mod Kept
pub mod Results
mod Tests
use flosp_os.Common.{ℕ, zero, suc, ◌+◌, ◌==◌, Bool, not, if◌then◌else◌, bit_and, u8, codes}
use flosp_os.Common.Run.{stuck}
use flosp_os.Machine.{
  M, pure, ◌>>=◌, ◌>>◌, skip, inb, outb, kprint, kprint_run, kern_log, filter_debug, get,
}
use flosp_os.Text

-- The ports and controller commands of io.h.
abbrev pub data_port : ℕ
data_port = 0x60

abbrev pub command_port : ℕ
command_port = 0x64

abbrev pub status_port : ℕ
status_port = 0x64

abbrev pub read_config_byte : ℕ
read_config_byte = 0x20

abbrev pub write_config_byte : ℕ
write_config_byte = 0x60

-- `while (!ready(inb(PS2_STATUS_PORT)));`, which may turn `rounds` times before it counts as stuck.
unfoldable pub spin : (ℕ → Bool) → ℕ → M (Unit {0})
spin ready zero = λ s. stuck
spin ready (suc rounds) = do
  status ← inb status_port
  let again = spin ready rounds
  if ready status then skip else again

-- The input buffer of the controller is empty; its output buffer is full.
abbrev pub can_write : ℕ → Bool
can_write status = bit_and status 0b10 == 0

abbrev pub can_read : ℕ → Bool
can_read status = not (bit_and status 0b1 == 0)

-- `while ((inb(PS2_STATUS_PORT) & 0b1) == 1) inb(PS2_DATA_PORT);`
unfoldable pub drain : ℕ → M (Unit {0})
drain zero = λ s. stuck
drain (suc rounds) = do
  status ← inb status_port
  let again = (do inb data_port; drain rounds)
  if bit_and status 0b1 == 1 then again else skip

module _ (fuel : ℕ) where
  unfoldable pub ps2_send_cmd : ℕ → M (Unit {0})
  ps2_send_cmd cmd = spin can_write fuel >> outb command_port cmd

  unfoldable pub ps2_write_data : ℕ → M (Unit {0})
  ps2_write_data byte = spin can_write fuel >> outb data_port byte

  unfoldable pub ps2_read_data : M ℕ
  ps2_read_data = spin can_read fuel >> inb data_port

  unfoldable pub flush_ps2_output_buffer : M (Unit {0})
  flush_ps2_output_buffer = do
    kern_log filter_debug (codes "Debug: Flushing PS/2 output buffer")
    drain fuel

  unfoldable pub read_ps2_controller_config : M ℕ
  read_ps2_controller_config = do
    flush_ps2_output_buffer
    ps2_send_cmd read_config_byte
    config_byte ← ps2_read_data
    kprint (codes "READ: PS/2 Controller Configuration: ")
    s ← get
    kprint_run (Text.kprint_bin s.env.garbage config_byte 1)
    kprint (codes "\n")
    pure config_byte

  unfoldable pub write_ps2_controller_config : ℕ → M (Unit {0})
  write_ps2_controller_config config_byte = do
    kprint (codes "WRITE: PS/2 Controller Configuration: ")
    s ← get
    kprint_run (Text.kprint_bin s.env.garbage config_byte 1)
    kprint (codes "\n")
    ps2_send_cmd write_config_byte
    ps2_write_data config_byte
