-- ===== src/Keyboard.antt =====
-- src/os/src/drivers/keyboard.c: scancode set 1 to characters, with the state of the shift keys.
pub mod Typing
mod Tests
use flosp_os.Common.{
  ℕ, zero, suc, ◌+◌, List, [], ◌∷◌, ◌++◌, Bool, true, false, ◌==◌, if◌then◌else◌, Option, none,
  some, codes, get_elem?,
}
use flosp_os.Common.Run.{Run, done, fault}
use flosp_os.Text.{Text}
use flosp_os.Machine.{
  M, Machine, lift, pure, ◌>>=◌, ◌>>◌, skip, get, modify, inb, kputchar, backspace, kern_log,
  filter_debug, filter_info, filter_warning, filter_error,
}
use flosp_os.Ps2.{data_port, flush_ps2_output_buffer}
use flosp_os.Ps2.Port.{ps2_port_write_data, ps2_wait_for_ack}
use flosp_os.Ps2.Port.Identity.{
  ps2_port_identity_translation, get_ps2_port_identity, translation_keyboard,
}

-- PS2_KEYBOARD_SET_SCANCODE_SET and PS2_KEYBOARD_SET_SCANCODE_1
abbrev pub set_scancode_set : ℕ
set_scancode_set = 0xf0

abbrev pub set_scancode_1 : ℕ
set_scancode_1 = 0x01

-- All printable characters, with null bytes for the other keys; the last one ends the string.
abbrev pub chars : Text
chars =
    (0 ∷ 0 ∷ codes "1234567890-=")
    ++ (0 ∷ 0 ∷ codes "qwertyuiop[]\n")
    ++ (0 ∷ codes "asdfghjkl;'`")
    ++ (0 ∷ codes "\\zxcvbnm,./")
    ++ (0 ∷ 0 ∷ 0 ∷ codes " ")
    ++ (0 ∷ [])

abbrev pub chars_cap : Text
chars_cap =
    (0 ∷ 0 ∷ codes "!@#$%^&*()_+")
    ++ (0 ∷ 0 ∷ codes "QWERTYUIOP{}\n")
    ++ (0 ∷ codes "ASDFGHJKL:\"~")
    ++ (0 ∷ codes "|ZXCVBNM<>?")
    ++ (0 ∷ 0 ∷ 0 ∷ codes " ")
    ++ (0 ∷ [])

-- `table[i]`
unfoldable pub char_at : Text → ℕ → Run ℕ
char_at table i = elim (get_elem? table i) [ none ↦ fault | some c ↦ done c ]

abbrev pub set_shift : Bool → M (Unit {0})
set_shift b = modify (λ s. record s { shift_down = b })

unfoldable pub keycode_char : ℕ → M ℕ
keycode_char keycode s =
    if keycode == 0x2a
    then (set_shift true >> pure 0) s
    else if keycode == 0x36
    then (set_shift true >> pure 0) s
    else if keycode == 0xaa
    then (set_shift false >> pure 0) s
    else if keycode == 0xb6
    then (set_shift false >> pure 0) s
    else if keycode == 0x0e
    then (backspace >> pure 0) s
    else lift (char_at (if s.shift_down then chars_cap else chars) keycode) s

unfoldable pub keyboard_handler : M (Unit {0})
keyboard_handler = do keycode ← inb data_port; c ← keycode_char keycode; kputchar c

-- The device behind `port` is a keyboard.
unfoldable pub is_keyboard : ℕ → M Bool
is_keyboard port = do
  identity ← get_ps2_port_identity port
  elim identity [
    | none ↦ (λ s. fault)
    | some r ↦ pure (ps2_port_identity_translation r == translation_keyboard)
  ]

module _ (fuel : ℕ) where
  unfoldable pub ps2_scancode_correction : ℕ → M ℕ
  ps2_scancode_correction port = do
    set_status ← ps2_port_write_data fuel port set_scancode_set
    let set_failed = (do
      kern_log filter_error (codes "Error: PS/2 port write failed: PS2_KEYBOARD_SET_SCANCODE_SET")
      pure 1)
    let go = (do
      ack_status ← ps2_wait_for_ack fuel port set_scancode_set
      let ack_failed = (do
        kern_log filter_error
            (codes "Error: PS/2 port acknowledgement failed: PS2_KEYBOARD_SET_SCANCODE_SET")
        pure 1)
      let choose = (do
        one_status ← ps2_port_write_data fuel port set_scancode_1
        let one_failed = (do
          kern_log filter_error (codes "Error: PS/2 port write failed: PS2_KEYBOARD_SET_SCANCODE_1")
          pure 1)
        if one_status == 1 then one_failed else pure 0)
      if ack_status == 1 then ack_failed else choose)
    if set_status == 1 then set_failed else go

  -- One of the two arms of `keyboard_init`; `failed` is its message. True if it goes on to the flush.
  unfoldable pub start_keyboard : ℕ → Text → M Bool
  start_keyboard port failed = do
    status ← ps2_scancode_correction port
    let give_up = (do kern_log filter_error failed; pure false)
    let start = (do
      kern_log filter_debug (codes "Debug: Keyboard initialized")
      modify (λ s. record s { keyboard_enabled = true })
      pure true)
    if status == 1 then give_up else start

  -- `usb` is what `is_usb_init` returns.
  unfoldable pub keyboard_init : Bool → M (Unit {0})
  keyboard_init usb = do
    kern_log filter_debug (codes "Debug: Initializing keyboard")
    s ← get
    let second = (do
      found ← is_keyboard 2
      let nothing = (do kern_log filter_info (codes "Info: No PS/2 keyboard detected"); pure true)
      if found
          then start_keyboard 2 (codes "Error: PS/2 port 2 scancode correction failed")
          else nothing)
    let ps2 = (do
      found ← is_keyboard 1
      go_on ←
          (if found
            then start_keyboard 1 (codes "Error: PS/2 port 1 scancode correction failed")
            else second)
      if go_on then flush_ps2_output_buffer fuel else skip)
    if s.ps2_initialized
        then ps2
        else if usb
        then kern_log filter_error (codes "YOU SHOULD NOT BE HERE YOU SCOUNDREL")
        else kern_log filter_warning
            (codes "Error: Keyboard initialization failed, no controller found")
