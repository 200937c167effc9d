-- ===== src/Boot/Modes.antt =====
-- `find_graphics_mode` and `set_graphics_mode`, on a firmware that tells of its modes in buffers of its own.
use flosp_os.Common.{
  ℕ, zero, suc, ◌+◌, ◌^◌, ◌<◌, ◌≡◌, ◌∙◌, ap, sym, refl, Bool, true, false, arith, ltb, u32,
  if◌then◌else◌, ◌==◌, ◌&&◌, inl, inr, Bool-cases, Option, none, some,
}
use flosp_os.Common.Run
use flosp_os.Common.Run.{Run, done}
use flosp_os.Mem.{Memory}
use flosp_os.Boot.Codes.{efi_unsupported}
use flosp_os.Boot.Efi.{
  Firmware, Build, World, Outcome, value, returned, call, ◌>>=◌, get, pure, return, print_if,
  efi_print, function, check, check_quiet, ended,
}
use flosp_os.Boot.Triple.{efi_error-never}
use flosp_os.Boot.Graphics.{
  mode_of, max_mode, horizontal_resolution, vertical_resolution, pixel_format, is_target, mode_loop,
  find_graphics_mode, set_graphics_mode,
}

-- The first number from `i` on that passes a test, among `left` numbers.
unfoldable pub first : (ℕ → Bool) → ℕ → ℕ → Option ℕ
first test zero i = none
first test (suc left) i = let rest = first test left (i + 1) in if test i then some i else rest

first-next :
    (test : ℕ → Bool) (left i : ℕ)
    → test i ≡ false
    → first test (suc left) i ≡ first test left (i + 1)
unfolding first
first-next test left i e = rw e refl

-- What the firmware knows of a mode.
pub record Mode : Type 0 where
  pub width : ℕ
  pub height : ℕ
  pub format : ℕ

module _ {P : Type 0} (fw : Firmware P) (protocol : ℕ) (status : ℕ → ℕ) (modes : ℕ → Mode)
    (number : ℕ) (Intact : Memory → P → Type 0) where
  -- While what the firmware needs for it is intact, there are `number` modes, and a query of one gives a
  -- buffer that tells what the mode is. A query may change the memory, as the buffer is new, but leaves
  -- that intact.
  pub record Answers : Type 0 where
    pub counted : (m : Memory) (p : P) → Intact m p → max_mode m (mode_of m protocol) ≡ number
    pub told :
        (i old : ℕ) (m : Memory) (p : P)
        → i < number
        → Intact m p
        → let ((status', info), m', p') = fw.query_mode protocol i old m p in
          (status' ≡ status i)
          × (horizontal_resolution m' info ≡ (modes i).width)
          × (vertical_resolution m' info ≡ (modes i).height)
          × (pixel_format m' info ≡ (modes i).format)
          × Intact m' p'

module _ {P : Type 0} (build : Build) (fw : Firmware P) (protocol width height format : ℕ)
    (status : ℕ → ℕ) (modes : ℕ → Mode) (number : ℕ) (Intact : Memory → P → Type 0) where
  abbrev pub wanted : ℕ → Bool
  wanted i =
      ((modes i).width == width) && (((modes i).height == height) && ((modes i).format == format))

  abbrev outcome : ℕ → Option ℕ → Outcome (ℕ × ℕ) (ℕ × ℕ)
  outcome found none = value (efi_unsupported, found)
  outcome found (some k) = returned (status k, k)

  abbrev pub answer : ℕ → Option ℕ → ℕ × ℕ
  answer found none = (efi_unsupported, found)
  answer found (some k) = (status k, k)

  abbrev in_state : World P → Memory → P → World P
  in_state w m p = record { mem = m; private = p; printed = w.printed }

  mode_loop-first :
      build.debug ≡ false
      → Answers fw protocol status modes number Intact
      → (found : ℕ) (w : World P) (left fuel i old : ℕ) → Intact w.mem w.private
      → number ≡ i + left
      → left < fuel
      → i + left < 2 ^ 32
      → (m : Memory) × (p : P) × Intact m p
        × (mode_loop build fw fuel protocol width height format i old found w
            ≡ done (outcome found (first wanted left i), in_state w m p))
  unfolding mode_loop first ◌>>=◌ get call pure return print_if efi_print is_target
  mode_loop-first quiet answers found w left zero i old intact n lt small = absurd (omega arith)
  mode_loop-first quiet answers found w zero (suc fuel) i old intact n lt small =
      let over : ltb i (max_mode w.mem (mode_of w.mem protocol)) ≡ false =
        ground (arith, n, answers.counted w.mem w.private intact) in
      (w.mem, w.private, intact, rw over refl)
  mode_loop-first quiet answers found w (suc left) (suc fuel) i old intact n lt small =
      let more : ltb i (max_mode w.mem (mode_of w.mem protocol)) ≡ true =
        ground (arith, n, answers.counted w.mem w.private intact) in
      let next : u32 (i + 1) ≡ i + 1 = omega arith in
      let ((status', info), m', p') = fw.query_mode protocol i old w.mem w.private in
      let (same, across, down, kind, intact') =
        answers.told i old w.mem w.private (omega (arith, n)) intact in
      elim (Bool-cases (wanted i)) [
        | inl hit ↦ (
          m',
          p',
          intact',
          rw (more, quiet, efi_error-never status', across, down, kind, hit, same) refl,
        )
        | inr miss ↦
            let (m, p, kept, run) =
              mode_loop-first quiet answers found (in_state w m' p') left fuel (i + 1) info intact'
                (omega (arith, n)) (omega arith) (omega arith) in
            let step : mode_loop build fw (suc fuel) protocol width height format i old found w
                ≡ mode_loop build fw fuel protocol width height format (i + 1) info found
                    (in_state w m' p') =
              simp (more, quiet, efi_error-never status', across, down, kind, miss, next) in
            (
              m,
              p,
              kept,
              step
                  ∙ (run
                      ∙ ap (λ o. done (outcome found o, in_state w m p))
                          (sym (first-next wanted left i miss))),
            )
      ]

  abbrev find_run : ℕ → World P → Run (Outcome ℕ (ℕ × ℕ) × World P)
  find_run found w = find_graphics_mode build fw protocol width height format found w

  abbrev pub set_run : World P → Run (Outcome ℕ ℕ × World P)
  set_run w = set_graphics_mode build fw protocol width height format w

  -- The search ends with the first mode of the wanted width, height and format and the status of its query,
  -- or with EFI_UNSUPPORTED and the number it was given.
  find_graphics_mode-first :
      build.debug ≡ false
      → Answers fw protocol status modes number Intact
      → (found : ℕ) (w : World P) → Intact w.mem w.private
      → number < 2 ^ 32
      → (m : Memory) × (p : P) × Intact m p
        × (find_run found w ≡ done (value (answer found (first wanted number 0)), in_state w m p))
  unfolding find_graphics_mode function
  find_graphics_mode-first quiet answers found w intact small =
      let (m, p, kept, run) =
        mode_loop-first quiet answers found w number (2 ^ 32) 0 (build.garbage 0) intact
          (omega arith) small (omega (arith, small)) in
      (
        m,
        p,
        kept,
        ap (λ r. Run.◌>>=◌ r ended) run ∙ same_answer (in_state w m p) (first wanted number 0),
      )
    where
      same_answer :
          (w : World P) (o : Option ℕ)
          → Run.◌>>=◌ (done (outcome found o, w)) (ended {S = ℕ}) ≡ done (value (answer found o), w)
      same_answer w none = refl
      same_answer w (some k) = refl

  -- In a build that prints no debug texts, on a firmware that tells of its modes by new buffers: the mode
  -- that is set is the first one of the wanted width, height and format, and mode 0 where none is, as
  -- EFI_UNSUPPORTED does not stop the function. Between the queries and the setting of the mode nothing
  -- else is done, and after it the screen is cleared and the input reset.
  pub set_graphics_mode-first :
      build.debug ≡ false
      → Answers fw protocol status modes number Intact
      → (w : World P) → Intact w.mem w.private
      → number < 2 ^ 32
      → (m : Memory) × (p : P) × Intact m p
        × (set_run w ≡ (
            let k = (answer 0 (first wanted number 0)).1 in
            let (_, m1, p1) = fw.set_mode protocol k m p in
            let (_, m2, p2) = fw.clear_screen m1 p1 in
            let (status', m3, p3) = fw.reset 0 m2 p2 in done (value status', in_state w m3 p3)))
  unfolding set_graphics_mode ◌>>=◌ call pure check check_quiet function
  set_graphics_mode-first quiet answers w intact small =
      let (status0, k) = answer 0 (first wanted number 0) in
      let (m, p, kept, run) = find_graphics_mode-first quiet answers 0 w intact small in
      let (status1, m1, p1) = fw.set_mode protocol k m p in
      let (status2, m2, p2) = fw.clear_screen m1 p1 in
      let (status3, m3, p3) = fw.reset 0 m2 p2 in
      (
        m,
        p,
        kept,
        rw
            (
              run,
              efi_error-never status0,
              efi_error-never status1,
              efi_error-never status2,
              efi_error-never status3,
            )
            refl,
      )
