-- ===== src/Boot/Efi.antt =====
-- src/bootloader/src: the firmware that the loader calls, and the loader's calls. A function of the
-- source is a body that may return early; `function` ends it.
use flosp_os.Common.{ℕ, List, [], ◌∷◌, Bool, false, if◌then◌else◌, codes}
use flosp_os.Common.Run
use flosp_os.Common.Run.{Run, done, stuck}
use flosp_os.Mem.{Memory}
use flosp_os.Text
use flosp_os.Text.{Text}
use flosp_os.Boot.Codes.{efi_error}

-- A service acts on the memory and on the firmware's own state, of type `P`.
abbrev pub Service : Type 0 → Type 0 → Type 0
Service P A = Memory → P → A × Memory × P

-- What GetMemoryMap stores through its pointers.
pub record MapInfo : Type 0 where
  pub size : ℕ
  pub key : ℕ
  pub descriptor_size : ℕ
  pub descriptor_version : ℕ

-- The services and protocols of the firmware, which is not part of the program. Each gives its status
-- first, then what its out pointers point to afterwards; what they point to before is its last
-- argument.
pub record Firmware (P : Type 0) : Type 0 where
  -- the directory and the name; the file
  pub open_file : ℕ → Text → ℕ → Service P (ℕ × ℕ)
  pub close : ℕ → Service P ℕ
  -- the file, the buffer and the size
  pub read : ℕ → ℕ → ℕ → Service P (ℕ × ℕ)
  pub set_position : ℕ → ℕ → Service P ℕ
  -- the count of pages and the address
  pub allocate_pages : ℕ → ℕ → Service P (ℕ × ℕ)
  -- the size; the buffer
  pub allocate_pool : ℕ → ℕ → Service P (ℕ × ℕ)
  pub free_pool : ℕ → Service P ℕ
  -- the destination, the source and the length
  pub copy_mem : ℕ → ℕ → ℕ → Service P ℕ
  -- the buffer, the size and the value
  pub set_mem : ℕ → ℕ → ℕ → Service P ℕ
  -- the buffer
  pub get_memory_map : ℕ → MapInfo → Service P (ℕ × MapInfo)
  -- the image handle and the key of the map
  pub exit_boot_services : ℕ → ℕ → Service P ℕ
  pub set_watchdog_timer : ℕ → ℕ → ℕ → ℕ → Service P ℕ
  -- the handles of the graphics protocol, and their count
  pub locate_handle_buffer : ℕ × ℕ → Service P (ℕ × ℕ × ℕ)
  -- the handle and the agent; the graphics protocol
  pub open_protocol : ℕ → ℕ → ℕ → Service P (ℕ × ℕ)
  -- the simple file system protocol
  pub locate_protocol : ℕ → Service P (ℕ × ℕ)
  -- the protocol; the root directory
  pub open_volume : ℕ → ℕ → Service P (ℕ × ℕ)
  -- the protocol and the mode; the address of the information
  pub query_mode : ℕ → ℕ → ℕ → Service P (ℕ × ℕ)
  pub set_mode : ℕ → ℕ → Service P ℕ
  pub clear_screen : Service P ℕ
  pub reset : ℕ → Service P ℕ

-- How the loader was built, and what the stack holds before a call.
pub record Build : Type 0 where
  pub debug : Bool
  pub info : Bool
  pub garbage : ℕ → ℕ

pub record World (P : Type 0) : Type 0 where
  pub mem : Memory
  pub private : P
  pub printed : List Text

-- A body goes on with a value, or has returned a result.
pub data Outcome (R A : Type 0) : Type 0 where
  value : A → Outcome R A
  returned : R → Outcome R A

-- A piece of a function's body; the function returns an `R`.
abbrev pub L : Type 0 → Type 0 → Type 0 → Type 0
L P R A = World P → Run (Outcome R A × World P)

module _ {P R A : Type 0} where
  unfoldable pub pure : A → L P R A
  pure a w = done (value a, w)

  unfoldable pub return : R → L P R A
  return r w = done (returned r, w)

  unfoldable pub call : Service P A → L P R A
  call f w = let (a, m, p) = f w.mem w.private in done (value a, record w { mem = m; private = p })

  -- A result that does not depend on the world.
  unfoldable pub lift : Run A → L P R A
  lift r w = Run.◌>>=◌ r (λ a. done (value a, w))

  -- `while(1);`
  unfoldable pub hang : L P R A
  hang w = stuck

module _ {P R A B : Type 0} where
  abbrev pub and_then : Outcome R A × World P → (A → L P R B) → Run (Outcome R B × World P)
  and_then (value a, w) k = k a w
  and_then (returned r, w) k = done (returned r, w)

  infixl 5 ◌>>=◌ ◌>>◌
  unfoldable pub ◌>>=◌ : L P R A → (A → L P R B) → L P R B
  m >>= k = λ w. Run.◌>>=◌ (m w) (λ r. and_then r k)

  abbrev pub ◌>>◌ : L P R A → L P R B → L P R B
  m >> n = m >>= λ _. n

module _ {P R S : Type 0} where
  abbrev pub ended : Outcome R R × World P → Run (Outcome S R × World P)
  ended (value r, w) = done (value r, w)
  ended (returned r, w) = done (value r, w)

  -- The call of a function with this body.
  unfoldable pub function : L P R R → L P S R
  function body w = Run.◌>>=◌ (body w) ended

module _ {P R : Type 0} where
  abbrev pub skip : L P R (Unit {0})
  skip = pure tt

  unfoldable pub get : L P R (World P)
  get w = done (value w, w)

  unfoldable pub modify_mem : (Memory → Memory) → L P R (Unit {0})
  modify_mem f w = done (value tt, record w { mem = f w.mem })

  -- `efi_print`; the status of OutputString is not read.
  unfoldable pub efi_print : Text → L P R (Unit {0})
  efi_print text w = done (value tt, record w { printed = text ∷ w.printed })

  -- `if (EFI_ERROR(status)) return r;`
  unfoldable pub check_quiet : ℕ → R → L P R (Unit {0})
  check_quiet status r = if efi_error status then return r else skip

  -- `if (EFI_ERROR(status)) { efi_print(SystemTable, message); return r; }`
  unfoldable pub check : ℕ → Text → R → L P R (Unit {0})
  check status message r = if efi_error status then (efi_print message >> return r) else skip

  -- `#ifdef DEBUG` and `#ifdef INFO`
  unfoldable pub print_if : Bool → Text → L P R (Unit {0})
  print_if set text = if set then efi_print text else skip

  -- video.c, `efi_printnum` and `efi_printhex`: the code of `kprint_num` and `kprint_hex` with a signed
  -- `stack_top` of 16 bits, which counts from -1 as the unsigned one does from 255.
  unfoldable pub efi_printnum : Build → ℕ → L P R (Unit {0})
  efi_printnum build n = do text ← lift (Text.kprint_num build.garbage n); efi_print text

  unfoldable pub efi_printhex : Build → ℕ → Bool → L P R (Unit {0})
  efi_printhex build h zero_x = do
    text ← lift (Text.kprint_hex build.garbage h false)
    print_if zero_x (codes "0x")
    efi_print text

  abbrev pub print_all : List Text → L P R (Unit {0})
  print_all [] = skip
  print_all (text ∷ texts) = efi_print text >> print_all texts
