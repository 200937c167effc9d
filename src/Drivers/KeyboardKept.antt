-- ===== src/Drivers/KeyboardKept.antt =====
-- keyboard.c and the global variables of the drivers.
use flosp_os.Common.{
  ℕ, ◌==◌, ◌≡◌, refl, true, false, Bool, Option, some, none, if◌then◌else◌, codes,
}
use flosp_os.Common.Run.{Run, done, fault}
use flosp_os.Text.{Text}
use flosp_os.Machine.{Machine, M, Response, modify, get, pure, lift, ◌>>=◌, ◌>>◌}
use flosp_os.Machine.Keeps.{
  Keeps, Stable, keeps_rules, Keeps-bind, Keeps-if, Keeps-pure, Keeps-modify, Keeps-branch,
  Keeps-state, Keeps-kern_log, Keeps-inb, Keeps-kputchar, Keeps-backspace, Keeps-get_bind,
  Keeps-lift,
}
use flosp_os.Ps2.{data_port}
use flosp_os.Ps2.Port.Identity.{
  get_ps2_port_identity, ps2_port_identity_translation, translation_keyboard,
}
use flosp_os.Ps2.Kept.{
  Keeps-ps2_port_write_data, Keeps-ps2_wait_for_ack, Keeps-flush_ps2_output_buffer,
}
use flosp_os.Keyboard.{
  chars, chars_cap, set_shift, keycode_char, char_at, keyboard_handler, is_keyboard,
  ps2_scancode_correction, start_keyboard, keyboard_init,
}
use flosp_os.Drivers.{Consistent, Consistent-Stable, Ready, Ready-Stable}

Keeps-set_shift : (b : Bool) → Keeps Consistent (set_shift b)
Keeps-set_shift b = Keeps-modify _ (λ s h. h)

shifted : (b : Bool) → Keeps Consistent {A = ℕ} (set_shift b >> pure 0)
shifted b = Keeps-bind _ _ (Keeps-set_shift b) (λ _. Keeps-pure 0)

Keeps-keycode_char : (k : ℕ) → Keeps Consistent (keycode_char k)
unfolding keycode_char
Keeps-keycode_char k =
    Keeps-branch (λ s. k == 0x2a) _ _ (shifted true)
      (Keeps-branch (λ s. k == 0x36) _ _ (shifted true)
        (Keeps-branch (λ s. k == 0xaa) _ _ (shifted false)
          (Keeps-branch (λ s. k == 0xb6) _ _ (shifted false)
            (Keeps-branch (λ s. k == 0x0e) _ _
              (Keeps-bind _ _ (Keeps-backspace Consistent-Stable) (λ _. Keeps-pure 0))
              (Keeps-state (λ s. lift (char_at (if s.shift_down then chars_cap else chars) k))
                (λ s. Keeps-lift _))))))

pub Keeps-keyboard_handler : Keeps Consistent keyboard_handler
unfolding keyboard_handler
Keeps-keyboard_handler =
    Keeps-bind _ _ (Keeps-inb Consistent-Stable data_port)
      (λ k. Keeps-bind _ _ (Keeps-keycode_char k) (λ c. Keeps-kputchar Consistent-Stable c))

module _ {Q : Machine → Type 0} (q : Stable Q) where
  Keeps-get_ps2_port_identity : (port : ℕ) → Keeps Q (get_ps2_port_identity port)
  unfolding get_ps2_port_identity
  Keeps-get_ps2_port_identity port =
      Keeps-branch (λ s. port == 1) (λ s. pure (some s.identity1) s) _
        (Keeps-state (λ s. pure (some s.identity1)) (λ s. Keeps-pure _))
        (Keeps-branch (λ s. port == 2) (λ s. pure (some s.identity2) s) _
          (Keeps-state (λ s. pure (some s.identity2)) (λ s. Keeps-pure _))
          (Keeps-bind _ _ (Keeps-kern_log q 3 _) (λ _. Keeps-pure none)))

  Keeps-is_keyboard : (port : ℕ) → Keeps Q (is_keyboard port)
  unfolding is_keyboard
  Keeps-is_keyboard port =
      Keeps-bind _ _ (Keeps-get_ps2_port_identity port) (λ identity. known identity)
    where
      known :
          (identity : Option Response)
          → Keeps Q {A = Bool} (elim identity [
            | none ↦ (λ s. fault)
            | some r ↦ pure (ps2_port_identity_translation r == translation_keyboard)
          ])
      known none = record { at = λ s t b h e. cc }
      known (some r) = Keeps-pure _

  Keeps-ps2_scancode_correction : (fuel port : ℕ) → Keeps Q (ps2_scancode_correction fuel port)
  unfolding ps2_scancode_correction
  Keeps-ps2_scancode_correction fuel port =
      search (keeps_rules, q, Keeps-ps2_port_write_data, Keeps-ps2_wait_for_ack) depth 30

module _ (fuel : ℕ) where
  Keeps-keyboard_on : Keeps Ready (modify (λ s. record s { keyboard_enabled = true }))
  Keeps-keyboard_on = Keeps-modify _ (λ s (((one, two, id1, id2, _), numbers), set).
      (((one, two, id1, id2, λ on. set), numbers), set))

  Keeps-start_keyboard : (port : ℕ) (failed : Text) → Keeps Ready (start_keyboard fuel port failed)
  unfolding start_keyboard
  Keeps-start_keyboard port failed =
      search (keeps_rules, Ready-Stable, Keeps-ps2_scancode_correction, Keeps-keyboard_on) depth 30

  -- The part behind the test of the controller.
  at_test :
      {A : Type 0} (b : Bool) (m n : M A) (s t : Machine) (a : A)
      → Consistent s
      → s.ps2_initialized ≡ b
      → Keeps Ready m
      → Keeps Consistent n
      → ◌≡◌ {A = Run (A × Machine)} ((if b then m else n) s) (done (a, t))
      → Consistent t
  at_test true m n s t a h set km kn e = (km.at s t a (h, set) e).0
  at_test false m n s t a h set km kn e = kn.at s t a h e

  guarded :
      {A : Type 0} (m n : M A)
      → Keeps Ready m
      → Keeps Consistent n
      → Keeps Consistent (get >>= λ s. if s.ps2_initialized then m else n)
  guarded m n km kn =
      Keeps-get_bind (λ s. if s.ps2_initialized then m else n)
        (λ s t a h e. at_test s.ps2_initialized m n s t a h refl km kn e)

  pub Keeps-keyboard_init : (usb : Bool) → Keeps Consistent (keyboard_init fuel usb)
  unfolding keyboard_init
  Keeps-keyboard_init usb =
      Keeps-bind _ _ (Keeps-kern_log Consistent-Stable 1 (codes "Debug: Initializing keyboard"))
        (λ _.
          guarded _ _
            (Keeps-bind _ _ (Keeps-is_keyboard Ready-Stable 1) (λ found.
              Keeps-bind _ _
                (Keeps-if found _ _
                  (Keeps-start_keyboard 1 (codes "Error: PS/2 port 1 scancode correction failed"))
                  (Keeps-bind _ _ (Keeps-is_keyboard Ready-Stable 2) (λ other.
                    Keeps-if other _ _
                      (Keeps-start_keyboard 2
                        (codes "Error: PS/2 port 2 scancode correction failed"))
                      (Keeps-bind _ _
                        (Keeps-kern_log Ready-Stable 2 (codes "Info: No PS/2 keyboard detected"))
                        (λ _. Keeps-pure true)))))
                (λ go_on.
                  Keeps-if go_on _ _ (Keeps-flush_ps2_output_buffer Ready-Stable fuel)
                    (Keeps-pure tt))))
            (Keeps-if usb _ _
              (Keeps-kern_log Consistent-Stable 4 (codes "YOU SHOULD NOT BE HERE YOU SCOUNDREL"))
              (Keeps-kern_log Consistent-Stable 3
                (codes "Error: Keyboard initialization failed, no controller found"))))
