-- ===== src/Kernel.antt =====
-- src/os/src/kernel: messages and the system prompt.
pub mod Prompt
pub mod Entry
pub mod Checks
pub mod Console
pub mod NoHpet
pub mod Unstarted
mod Tests
mod BootTests
use flosp_os.Common.{ℕ, zero, suc, ◌+◌, ltb, if◌then◌else◌, codes}
use flosp_os.Common.Run.{Run, done, ◌>>=◌}
use flosp_os.Text
use flosp_os.Text.{Text}
use flosp_os.Vga.{Terminal, kputchar, kprint}

module _ (fonts : ℕ → ℕ → ℕ) where
  -- message.c; `message_filter` is the build's MESSAGE_FILTER.
  unfoldable pub kern_log : ℕ → ℕ → Text → Terminal → Run Terminal
  kern_log message_filter filter msg t =
      if ltb message_filter filter
      then (do t' ← kprint fonts msg t; kprint fonts (codes "\n") t')
      else done t

  module _ (garbage : ℕ → ℕ) where
    -- sysprompt.c: the loop that counts, at `i` with `n` rounds left.
    unfoldable pub count_up : ℕ → ℕ → Terminal → Run Terminal
    count_up zero i t = done t
    count_up (suc n) i t = do
      text ← Text.kprint_num garbage i
      t1 ← kprint fonts text t
      t2 ← kputchar fonts b'\n' t1
      count_up n (i + 1) t2

    unfoldable pub enter_sysprompt : Terminal → Run Terminal
    enter_sysprompt t = do t' ← kprint fonts (codes "C:\\> ") t; count_up 1000 0 t'
