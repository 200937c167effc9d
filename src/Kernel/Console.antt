-- ===== src/Kernel/Console.antt =====
-- What the drivers print, on the screen of the kernel, and the kernel's `main` up to the halt.
use mathlib.Core.List.{foldl}
use flosp_os.Common.{
  ℕ, ◌-◌, ◌^◌, ◌≤◌, ◌<◌, ◌≡◌, ◌∙◌, sym, ◌++◌, codes, refl, List, [], ◌∷◌, arith, leb, if◌then◌else◌,
}
use flosp_os.Common.Run.{done}
use flosp_os.Mem.{Memory}
use flosp_os.Text.{Text}
use flosp_os.Machine.{Machine, Event, out, set_reg, print, erase}
use flosp_os.Vga.{VideoModeInfo, Terminal, kscroll_down, kprint}
use flosp_os.Vga.Init.{initialize_video}
use flosp_os.Vga.Cursor.{
  Cursor, cursor, moved, advance, before_null, Fits, Fits-moved, kprint-advance, backspace-cursor,
  kscroll_down-moved,
}
use flosp_os.Interrupts.{StubTable, Idt}
use flosp_os.Kernel.Entry.{start_drivers, show_events, main}
use flosp_os.Kernel.Prompt.{lines_down, Counted, enter_sysprompt_lem}

-- The cursor is on a line of the screen, in a column of 16 bits.
abbrev pub InRange : ℕ → Cursor → Type 0
InRange last c = (c.line ≤ last) × (c.col < 2 ^ 16)

foldl-advance-InRange :
    (last : ℕ) (s : Text) (c : Cursor) → InRange last c → InRange last (foldl (advance last) c s)
foldl-advance-InRange last [] c h = h
foldl-advance-InRange last (x ∷ s) c (line, col) =
    foldl-advance-InRange last s (advance last c x) (ground arith, ground arith)

-- Where the events leave the cursor, on a screen whose last line is `last`; the newest is first.
abbrev pub after_events : ℕ → Cursor → List Event → Cursor
after_events last c [] = c
after_events last c (out port value ∷ events) = after_events last c events
after_events last c (set_reg reg value ∷ events) = after_events last c events
after_events last c (print text ∷ events) =
    foldl (advance last) (after_events last c events) (before_null text)
after_events last c (erase ∷ events) =
    let before = after_events last c events in
    record before { col = if leb 9 before.col then before.col - 9 else before.col }

after_events-InRange :
    (last : ℕ) (c : Cursor) (events : List Event)
    → InRange last c
    → InRange last (after_events last c events)
after_events-InRange last c [] h = h
after_events-InRange last c (out port value ∷ events) h = after_events-InRange last c events h
after_events-InRange last c (set_reg reg value ∷ events) h = after_events-InRange last c events h
after_events-InRange last c (print text ∷ events) h =
    foldl-advance-InRange last (before_null text) (after_events last c events)
      (after_events-InRange last c events h)
after_events-InRange last c (erase ∷ events) h =
    let (line, col) = after_events-InRange last c events h in (line, ground arith)

module _ (fonts : ℕ → ℕ → ℕ) (t : Terminal) (f : Fits t) (col : t.text_col_px < 2 ^ 16) where
  abbrev last : ℕ
  last = t.max_text_line

  in_range : (events : List Event) → InRange last (after_events last (cursor t) events)
  in_range events = after_events-InRange last (cursor t) events (f.on_screen, col)

  -- The events of any run can be shown, and only memory and the cursor change.
  show_events-after :
      (events : List Event)
      → (m : Memory) × (show_events fonts events t
          ≡ done (moved t m (after_events t.max_text_line (cursor t) events)))
  unfolding show_events
  show_events-after [] = (t.mem, refl)
  show_events-after (out port value ∷ events) = show_events-after events
  show_events-after (set_reg reg value ∷ events) = show_events-after events
  show_events-after (print text ∷ events) =
      let c = after_events last (cursor t) events in
      let (m, e) = show_events-after events in
      let (m', e') =
        kprint-advance fonts text (moved t m c) (Fits-moved t m c f (in_range events).0) in
      (m', rw e e')
  show_events-after (erase ∷ events) =
      let c = after_events last (cursor t) events in
      let (m, e) = show_events-after events in
      let (m', e') =
        backspace-cursor fonts (moved t m c) (Fits-moved t m c f (in_range events).0)
          (in_range events).1 in
      (m', rw e e')

-- Once the screen is set up and the drivers have started, `main` comes to the halt. What the drivers printed
-- is shown in its order, which gives the screen `shown`; that is scrolled by a line, which gives `lower`; on
-- that the text "C:\> " with the numerals from 0 to 999, each with a newline behind it, is printed, which
-- gives the last screen. Its cursor is in the first column, a thousand lines below the one that the
-- messages have reached, or in the last line. The drivers' state is the machine's.
pub main-prompt :
    (fonts : ℕ → ℕ → ℕ) (garbage : ℕ → ℕ) (cr3 : ℕ) (kver : Text) (stubs : StubTable) (fuel : ℕ)
    (v : VideoModeInfo) (xsdp limit : ℕ) (idt idt' : Idt) (t0 t1 : Terminal) (s0 s : Machine)
    → initialize_video fonts garbage cr3 v t0 ≡ done t1
    → Fits t1
    → t1.text_col_px < 2 ^ 16
    → start_drivers kver stubs fuel xsdp idt (record s0 { trace = [] }) ≡ done ((idt', limit), s)
    → (shown : Terminal) × (lower : Terminal) × (end : Terminal) × (lines : Text) × (show_events
          fonts s.trace t1
        ≡ done shown)
      × (cursor shown ≡ after_events t1.max_text_line (cursor t1) s.trace)
      × (kscroll_down shown ≡ done lower)
      × Counted 0 1000 lines
      × (kprint fonts (codes "C:\\> " ++ lines) lower ≡ done end)
      × (cursor end ≡ record { line = lines_down t1.max_text_line 1000 shown.text_line; col = 0 })
      × (main fonts garbage cr3 kver stubs fuel v xsdp idt t0 s0 ≡ done ((end, s), idt', limit))
unfolding main
main-prompt fonts garbage cr3 kver stubs fuel v xsdp limit idt idt' t0 t1 s0 s screen f col
      drivers =
    let c = after_events t1.max_text_line (cursor t1) s.trace in
    let (line, _) = after_events-InRange t1.max_text_line (cursor t1) s.trace (f.on_screen, col) in
    let (m, shows) = show_events-after fonts t1 f col s.trace in
    let (m', scrolls) = kscroll_down-moved (moved t1 m c) (Fits-moved t1 m c f line) in
    let (lines, m'', counted, prints, ends) =
      enter_sysprompt_lem fonts garbage (moved t1 m' c) (Fits-moved t1 m' c f line) in
    let last : Cursor = record { line = lines_down t1.max_text_line 1000 c.line; col = 0 } in
    (
      moved t1 m c,
      moved t1 m' c,
      moved t1 m'' last,
      lines,
      shows,
      refl,
      scrolls,
      counted,
      sym prints ∙ ends,
      refl,
      rw (screen, drivers, shows, scrolls, ends) refl,
    )
