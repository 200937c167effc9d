-- ===== src/Kernel/Tests.antt =====
-- The theorems of the kernel's top level at a small screen.
use flosp_os.Common.{ℕ, ◌%◌, ◌≡◌, refl, inr, arith, codes, ◌++◌}
use flosp_os.Common.Run.{done, frozen}
use flosp_os.Mem.{Memory}
use flosp_os.Text.{Text}
use flosp_os.Machine.Sample.{machine}
use flosp_os.Vga.{VideoModeInfo, Terminal, kprint, blank_output}
use flosp_os.Vga.Init.{initialize_video, set_video_mode, flag_bytes}
use flosp_os.Interrupts.{StubTable, Idt, descriptor}
use flosp_os.Vga.Cursor.{Fits, moved}
use flosp_os.Kernel.{enter_sysprompt}
use flosp_os.Kernel.Entry.{main}
use flosp_os.Kernel.Checks.{main-frozen}
use flosp_os.Kernel.Prompt.{lines_down, Counted, enter_sysprompt_lem}

abbrev fonts : ℕ → ℕ → ℕ
fonts size i = i % 256

abbrev screen : Terminal
screen = record {
  mem = λ a. a % 256;
  framebuffer_info = record { width = 800; height = 600; pitch = 3200; depth = 32 };
  video_mode_info = record {
    framebuffer_pointer = 0x1000000;
    backbuffer_pointer = 0x2000000;
    horizontal_resolution = 800;
    vertical_resolution = 600;
    pixels_per_scanline = 800;
  };
  text_col_px = 0;
  text_line = 3;
  max_text_line = 36;
  text_color = 0xffffff;
  background_color = 0;
  font_size = 16;
}

screen-Fits : Fits screen
screen-Fits = record {
  width = omega arith;
  lines = omega arith;
  font = inr (inr refl);
  last = omega arith;
  on_screen = omega arith;
}

enter_sysprompt_lem_example :
    (lines : Text) × (m : Memory) × Counted 0 1000 lines
    × (enter_sysprompt fonts (λ i. 7) screen ≡ kprint fonts (codes "C:\\> " ++ lines) screen)
    × (enter_sysprompt fonts (λ i. 7) screen
        ≡ done (moved screen m (record { line = lines_down 36 1000 3; col = 0 })))
enter_sysprompt_lem_example = enter_sysprompt_lem fonts (λ i. 7) screen screen-Fits

-- A mode without pixels.
abbrev no_video : VideoModeInfo
no_video = record {
  framebuffer_pointer = 0;
  backbuffer_pointer = 0;
  horizontal_resolution = 0;
  vertical_resolution = 0;
  pixels_per_scanline = 0;
}

abbrev empty_idt : Idt
empty_idt v = descriptor 0 0

no_video-done :
    initialize_video fonts (λ i. 7) 0 no_video screen
    ≡ done (blank_output (set_video_mode no_video screen))
unfolding initialize_video flag_bytes set_video_mode
no_video-done = refl

abbrev no_stubs : StubTable
no_stubs = record { stub = λ v. 0; behind = λ i. 0 }

main-frozen_example :
    main fonts (λ i. 7) 0 (codes "1") no_stubs 0 no_video 0x100 empty_idt screen machine ≡ frozen
main-frozen_example =
    main-frozen fonts (λ i. 7) 0 (codes "1") no_stubs 0 no_video 0x100 empty_idt screen
      (blank_output (set_video_mode no_video screen)) machine no_video-done refl
