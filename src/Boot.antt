-- ===== src/Boot.antt =====
-- src/bootloader/src: the loader, which reads the kernel from the boot volume and enters it.
pub mod Codes
pub mod Identity
pub mod Status
pub mod Efi
pub mod Elf
pub mod Segments
pub mod Kernel
pub mod Graphics
pub mod Xsdp
pub mod Search
pub mod Modes
pub mod MemoryMap
pub mod Promises
pub mod Opening
pub mod Leaving
pub mod Entering
pub mod Triple
pub mod Rules
pub mod Uefi
pub mod Pieces
pub mod Loaded
pub mod Table
pub mod Program
pub mod Headers
pub mod FileTable
pub mod Kept
pub mod LoadKernel
pub mod Main
mod Sample
mod EndTests
mod EnterTests
mod Tests
