-- ===== src/Kernel/BootTests.antt =====
-- A run of the kernel from its entry to the halt, with tables of the firmware and a clock that runs.
use flosp_os.Common.{
  ℕ, ◌+◌, ◌-◌, ◌*◌, ◌%◌, ◌≡◌, ◌<◌, ◌^◌, ap, refl, inl, inr, List, [], ◌∷◌, arith, leb, ltb,
  if◌then◌else◌, codes, ◌++◌, get_or, ◌==◌, false,
}
use flosp_os.Common.Run.{Run, done, fault, stuck, frozen}
use flosp_os.Text.{Text}
use flosp_os.Mem.{Memory, load_le}
use flosp_os.Machine.{Machine}
use flosp_os.Machine.Sample.{machine}
use flosp_os.Vga.{VideoModeInfo, Terminal, kscroll_down, kprint, blank_output}
use flosp_os.Vga.Init.{initialize_video, set_video_mode, flag_bytes}
use flosp_os.Vga.Cursor.{cursor, Fits}
use flosp_os.Kernel.Entry.{start_drivers, show_events, main}
use flosp_os.Kernel.Prompt.{lines_down, Counted}
use flosp_os.Kernel.Console.{after_events, main-prompt}
use flosp_os.Kernel.NoHpet.{hpet_table}
use flosp_os.Kernel.Unstarted.{returns, main-unstarted}
use flosp_os.Drivers.{Consistent}
use flosp_os.Drivers.Reach.{starts, here, next, Reach-Consistent}
use flosp_os.Interrupts.{
  StubTable, isr_stub, Idt, descriptor, idt_init, mask_pic_interrupts, set_gates,
  idt_set_descriptor,
}
use flosp_os.Acpi.{
  acpi_vcheck, acpi_ccheck, sum_bytes, acpi_init, save_xsdt, save_fadt, save_hpet, save_madt,
  get_acpi_table, find_table, signature_is, save_lapic_address, get_madt_entry_addr, walk_entries,
  get_lapic_address_acpi,
}
use flosp_os.Apic.{enable_lapic, check_apic, disable_pic8259, lapic_get_base, lapic_set_base}
use flosp_os.Text.{kprint_hex, number_text, digit_loop, reverse_loop, push, write, finish, c_string}
use flosp_os.Timers.{
  timers_init, find_hpet, choose_timer, pit_init, pit_disable, hpet_init, lapic_timer_init,
  calibrate, sleep_timer, hpet_sleep, wait_until, poll_hpet,
}

abbrev bytes_at : ℕ → List ℕ → ℕ → ℕ
bytes_at start xs a = if leb start a then get_or xs (a - start) 0 else 0

-- The XSDP at 0x500 points to an XSDT at 0x1000 of 52 bytes, with a FADT at 0x2000 and a MADT at 0x3000,
-- whose local APIC is at 0xfee00000.
abbrev tables : Memory
tables a =
    if ltb a 0x1000
    then bytes_at 0x500
        (0 ∷ 0 ∷ 0 ∷ 0 ∷ 0 ∷ 0 ∷ 0 ∷ 0 ∷ 238 ∷ 0 ∷ 0 ∷ 0 ∷ 0 ∷ 0 ∷ 0 ∷ 2 ∷ 0 ∷ 0 ∷ 0 ∷ 0 ∷ 0 ∷ 0 ∷ 0
          ∷ 0 ∷ 0 ∷ 0x10 ∷ [])
        a
    else if ltb a 0x2000
    then (if a == 0x1004
        then 52
        else bytes_at (0x1000 + 36) (0 ∷ 0x20 ∷ 0 ∷ 0 ∷ 0 ∷ 0 ∷ 0 ∷ 0 ∷ 0 ∷ 0x30 ∷ []) a)
    else if ltb a 0x3000
    then bytes_at 0x2000 (codes "FACP") a
    else if ltb a 0x3024
    then bytes_at 0x3000 (0x41 ∷ 0x50 ∷ 0x49 ∷ 0x43 ∷ 44 ∷ []) a
    else bytes_at 0x3024 (0 ∷ 0 ∷ 0xe0 ∷ 0xfe ∷ []) a

abbrev ready : Machine
ready = record machine { env = record machine.env { mem = tables; message_filter = 4 } }

abbrev empty_idt : Idt
empty_idt v = descriptor 0 0

abbrev stubs : StubTable
stubs = record { stub = λ v. 0x100000 + 16 * v; behind = λ i. 0 }

abbrev drivers : Run ((Idt × ℕ) × Machine)
drivers = start_drivers (codes "1") stubs 20 0x500 empty_idt ready

-- What a run leaves, or what it started from if it does not end.
abbrev machine_of : Run ((Idt × ℕ) × Machine) → Machine
machine_of (done (table, s)) = s
machine_of _ = ready

abbrev idt_of : Run ((Idt × ℕ) × Machine) → Idt
idt_of (done ((idt, limit), s)) = idt
idt_of _ = empty_idt

-- The limit of the interrupt table, or 0 if the run does not end.
abbrev limit_of : Run ((Idt × ℕ) × Machine) → ℕ
limit_of (done ((idt, limit), s)) = limit
limit_of _ = 0

done_of :
    (r : Run ((Idt × ℕ) × Machine)) → limit_of r ≡ 4095 → r ≡ done ((idt_of r, 4095), machine_of r)
done_of (done ((idt, limit), s)) e = ap (λ (n : ℕ). done ((idt, n), s)) e
done_of fault e = absurd (omega (arith, e))
done_of stuck e = absurd (omega (arith, e))
done_of frozen e = absurd (omega (arith, e))

drivers_end : limit_of drivers ≡ 4095
unfolding start_drivers idt_init mask_pic_interrupts set_gates isr_stub idt_set_descriptor
    descriptor acpi_vcheck acpi_ccheck sum_bytes acpi_init save_xsdt save_fadt save_hpet save_madt
    get_acpi_table find_table signature_is save_lapic_address get_madt_entry_addr walk_entries
    get_lapic_address_acpi load_le enable_lapic check_apic disable_pic8259 lapic_get_base
    lapic_set_base kprint_hex number_text digit_loop reverse_loop push write finish c_string
    timers_init find_hpet choose_timer pit_init pit_disable hpet_init lapic_timer_init calibrate
    sleep_timer hpet_sleep wait_until poll_hpet
drivers_end = refl

-- A screen of ten lines without columns.
abbrev no_columns : VideoModeInfo
no_columns = record {
  framebuffer_pointer = 0x1000000;
  backbuffer_pointer = 0x2000000;
  horizontal_resolution = 0;
  vertical_resolution = 160;
  pixels_per_scanline = 0;
}

abbrev fonts : ℕ → ℕ → ℕ
fonts size i = i % 256

abbrev unset : Terminal
unset = record {
  mem = λ a. 0;
  framebuffer_info = record { width = 0; height = 0; pitch = 0; depth = 0 };
  video_mode_info = no_columns;
  text_col_px = 0;
  text_line = 0;
  max_text_line = 0;
  text_color = 0xffffff;
  background_color = 0;
  font_size = 16;
}

abbrev cleared : Terminal
cleared = blank_output (set_video_mode no_columns unset)

cleared-Fits : Fits cleared
unfolding blank_output set_video_mode
cleared-Fits = record {
  width = omega arith;
  lines = omega arith;
  font = inr (inr refl);
  last = omega arith;
  on_screen = omega arith;
}

at_left : cleared.text_col_px < 2 ^ 16
unfolding blank_output
at_left = omega arith

screen_done : initialize_video fonts (λ i. 7) 0 no_columns unset ≡ done cleared
unfolding initialize_video flag_bytes
screen_done = refl

main-prompt_example :
    (shown : Terminal) × (lower : Terminal) × (end : Terminal) × (lines : Text) × (show_events fonts
        (machine_of drivers).trace
        cleared
      ≡ done shown)
    × (cursor shown
        ≡ after_events cleared.max_text_line (cursor cleared) (machine_of drivers).trace)
    × (kscroll_down shown ≡ done lower)
    × Counted 0 1000 lines
    × (kprint fonts (codes "C:\\> " ++ lines) lower ≡ done end)
    × (cursor end
        ≡ record { line = lines_down cleared.max_text_line 1000 shown.text_line; col = 0 })
    × (main fonts (λ i. 7) 0 (codes "1") stubs 20 no_columns 0x500 empty_idt unset ready
        ≡ done ((end, machine_of drivers), idt_of drivers, 4095))
main-prompt_example =
    main-prompt fonts (λ i. 7) 0 (codes "1") stubs 20 no_columns 0x500 4095 empty_idt
      (idt_of drivers) unset cleared ready (machine_of drivers) screen_done cleared-Fits at_left
      (done_of drivers drivers_end)

ready-Consistent : Consistent ready
ready-Consistent = (
  (inl (omega arith), inr refl, omega arith, omega arith, λ on. cc),
  (omega arith, omega arith, omega arith, omega arith),
)

Reach-Consistent_example : Consistent (machine_of drivers)
Reach-Consistent_example =
    Reach-Consistent 20 ready (machine_of drivers)
      (next ready (machine_of drivers) (machine_of drivers)
        (starts (codes "1") stubs 0x500 empty_idt (idt_of drivers, 4095) ready (machine_of drivers)
          (done_of drivers drivers_end))
        (here (machine_of drivers)))
      ready-Consistent

-- The same tables, and no interrupts.
abbrev stopped : Machine
stopped = record ready { env = record ready.env { clock = λ k. 7 } }

no_hpet : hpet_table stopped.env.mem 0x500 ≡ 0
unfolding find_table signature_is load_le
no_hpet = refl

main-unstarted_example :
    returns (main fonts (λ i. 7) 0 (codes "1") stubs 20 no_columns 0x500 empty_idt unset stopped)
    ≡ false
main-unstarted_example =
    main-unstarted fonts (λ i. 7) 0 (codes "1") stubs 20 no_columns 0x500 empty_idt unset stopped
      no_hpet (record { clock = λ n. refl; below = omega arith; unset = refl })
