-- ===== src/Lib.antt =====
-- FLOSP OS: its kernel in C, which a UEFI loader starts.
--
-- The kernel draws text into a frame in memory, finds the tables of the firmware, sets up interrupts and
-- timers, and drives a PS/2 keyboard through its ports. Paths below are from the repository's root.
--
-- Common and its children are shared: numbers, words, bits, lists, and Run, the outcome of a call
-- (`done`, or `fault` for an access outside an array, `stuck` for a loop without an end, `frozen`
-- for a halted processor).
--
--   Mem, Mem/Page   src/os/src/drivers/mem.c: memory is a function from addresses to bytes.
--   Text            src/os/src/drivers/vga.c, the number printers with their stack buffers.
--   Vga             src/os/src/drivers/vga.c: the record Terminal has the global variables and the
--                   memory; each function of the file is a function on it.
--   Kernel          src/os/src/kernel/message.c and sysprompt.c, on the Terminal. Kernel/Entry: `main` of
--                   kernel.c and gdt.c, on the Terminal and the Machine, whose events it shows;
--                   Kernel/Console follows the cursor through them; Kernel/Unstarted is about a
--                   machine without an HPET.
--   Machine         what the drivers share: the record Machine has their global variables, the
--                   devices' answers (Env) and the trace of outputs; `inb`, `outb`, `read_reg`,
--                   `write_reg` and `get_uptime_ticks` act on it. Printed text is an event here.
--   Ps2             src/os/src/drivers/ps2.c: the controller; Ps2/Port the devices behind the two
--                   ports; Ps2/Init `ps2_init`.
--   Keyboard        src/os/src/drivers/keyboard.c, on the Machine.
--   Interrupts      src/os/src/cpu/idt.c and `timer_handler` of src/os/src/kernel/timers.c.
--                   Interrupts/Service: interrupts one after the other, and a summary of them.
--   Acpi            src/os/src/cpu/acpi.c: the tables of the firmware, as bytes of memory.
--   Apic            src/os/src/cpu/apic.c.
--   Timers          src/os/src/kernel/timers.c.
--   Drivers         the variables of all drivers together: Drivers/Reach has their calls as steps of a
--                   relation, each of which runs to its end before the next; the files beside it say
--                   what each driver keeps, by the rules of Machine/Keeps. Machine/Leads has
--                   those for runs that do not return.
--   Boot            src/bootloader/src. Boot/Codes: inc/efi.h, status codes and page counts. Boot/Efi:
--                   the services of the firmware as a record of parameters, and the loader's calls,
--                   which may return early. Boot/Identity and Boot/Elf: elf.c. Boot/Segments and
--                   Boot/Kernel: loader.c. Boot/Graphics: video.c. Boot/Xsdp and Boot/Main: main.c and
--                   fs.c. Boot/Uefi states what the loader relies on of the firmware, and Boot/Sample
--                   has a firmware that keeps it; Boot/MemoryMap and Boot/Promises do so for the memory
--                   map and for what `efi_main` calls on its way. Boot/Triple and Boot/Rules have the
--                   rules for runs of the loader.
--
-- Loops on the answers of a device take fuel, `rounds`, and are stuck without: Ps2/Wait and
-- Ps2/Port/Timeout prove how many rounds are enough. The digit loops of Text take one round for each
-- cell of the buffer and one more, which Text/Loops proves enough; the walk over the MADT one for each
-- byte below its limit, which Acpi/Madt proves enough.
--
-- The answers of devices are numbers, one for each input; what an uninitialised stack buffer holds is
-- a parameter, and so is the value of cr3. The font tables are one too: Vga/Fonts has those of
-- boot_font.h. StubTable has the addresses in isr_stub_table of isr.s, which the linker sets, and the words
-- behind it.
--
-- The loader's loops over segments and modes take a round for each, which the counts in the header and in
-- the mode bound; the search for the XSDP has 2 ^ 16 rounds, as many as its counter can count. The
-- loader's memory holds the file's header, the tables and the protocol structures as bytes; the
-- firmware changes it, and keeps a state of its own.
--
-- Not modelled: assembly (isr.s, gdt64.s, cpu_asm.s) and the stubs for mouse, USB and FAT32. In
-- `main` the screen and the drivers have a memory each, so a frame that overlaps a table of the firmware
-- is not seen.
pub mod Common
pub mod Mem
pub mod Text
pub mod Vga
pub mod Kernel
pub mod Machine
pub mod Ps2
pub mod Keyboard
pub mod Interrupts
pub mod Acpi
pub mod Apic
pub mod Timers
pub mod Boot
pub mod Drivers
