-- ===== src/Lib.antt =====
-- holyos is a 32-bit kernel for x86: it boots by multiboot, sets up memory, interrupts, the keyboard
-- and a text screen, and runs a small command line. This library models its C code and proves what
-- its parts promise one another.
--
-- The parts. The keyboard interrupt (Ps2) reads a byte from the controller, turns it into an event and
-- puts it into the event ring (Input); the main loop takes the events out and hands them to the terminal
-- (Tty), whose line editor collects a line and runs the command that it names (Tty.Shell), and which prints
-- through the video driver (Video). Formatted text for the screen and for the serial line (Serial) comes
-- from vsnprintf (Print) and the functions on strings (Str). The heap (Mm.Heap) gets pages from the virtual
-- memory manager (Mm.Vmm), and that its frames from the frame allocator (Mm.Pmm). Ring, heap, frame allocator
-- and terminal each have a spin lock (Cpu.Spinlock). The descriptor tables (Cpu.Descriptors) lead an
-- interrupt to its stub, and that to the handler that is registered (Cpu.Interrupt).
--
-- Files and sources. A function of the source has its name here; its static variables are a record that
-- it takes and returns.
--   Cpu/Spinlock      kernel/cpu/spinlock.c, include/kernel/cpu/cpu.h
--   Cpu/Ports         include/kernel/cpu/io.h
--   Cpu/Pic           kernel/cpu/pic.c
--   Cpu/Descriptors   kernel/cpu/gdt.c, idt.c and their headers
--   Cpu/Interrupt     kernel/cpu/interrupt.c, include/kernel/cpu/interrupt.h
--   Input             drivers/input/input.c, include/kernel/input.h
--   Ps2/I8042         drivers/input/ps2/i8042.c, i8042.h
--   Ps2/Keymap        drivers/input/ps2/keymap.c
--   Ps2/Keyboard      drivers/input/ps2/ps2kbd.c
--   Mm/Pmm            kernel/mm/pmm.c; Mm/Pmm/Boot is pmm_init, and Mm/Pmm/Boot/Ready what it is to do
--   Mm/Heap           kernel/mm/heap.c; Mm/Heap/Source is what it takes from kernel/mm/vmm.c
--   Mm/Vmm            kernel/mm/vmm.c, include/kernel/mm/paging.h
--   Mem               lib/string.c: memcpy, memset, memset16
--   Str               lib/string.c: the functions on strings
--   Print             lib/sprintf.c
--   Serial            drivers/serial/serial.c, kernel/kprintf.c
--   Video, Video/Vga  drivers/video/video.c and vga.c
--   Pci               drivers/pci/pci.c, and the search for a controller in drivers/video/vga.c
--   Pci/Scan          drivers/pci/pci.c: the enumeration of the bus
--   Tty               kernel/tty/tty.c: output, cursor and the bodies of the commands
--   Tty/Shell         kernel/tty/tty.c: the line editor and the choice of the command
--   Pci/Device        drivers/pci/pci.c: the details of a function
--   Main              kernel/main.c: the main loop
--   Base              shared: C's tests and words, lists as arrays, bit operations, outcomes
--   Tests             the theorems at concrete inputs
--
-- The models. Numbers are natural numbers, and the words of the source are written as remainders. An
-- outcome is `done`, `spins` for a wait that nothing ends, or `fault` for an access outside an object.
-- Hardware behind ports is a parameter, as its behaviour is not in the sources; what a keyboard with
-- the US layout sends is in Ps2/Keyboard/Layout, and what the serial chip promises of its transmitter
-- in Serial/Output. A loop over the heap's list takes fuel; one more than the list has blocks is
-- enough, and the theorems show that it is. A polling loop takes fuel too, and `spins` is a device
-- that was not ready within that many polls. The heap's headers are kept by address, and the bytes
-- between them are not modelled.
--
-- The page tables are words in physical memory, and every access of the code goes through the address
-- translation of the processor (Mm/Vmm/Mmu), which is also what the theorems about them speak of. A string
-- is the list of the bytes from its pointer to the end of its object. The arguments of a format are data,
-- and the local arrays of a function, with what the stack holds in them, are arguments. The recursion over
-- PCI bridges is on a depth; 257 is enough where every bridge leads to a bus with a larger number, as bus
-- numbers are bytes. The loops of itoa, itoh and reverse take fuel by the number of digits and by the length.
--
-- Not modelled: the tables of drivers, the text of the log and the names of PCI classes in it, the boot code,
-- interrupts that come inside a call, and the order of the initialisations in kmain. drivers/video/vesa.c holds only comments.
pub mod Base
pub mod Cpu
pub mod Input
pub mod Ps2
pub mod Mm
pub mod Mem
pub mod Str
pub mod Print
pub mod Serial
pub mod Pci
pub mod Video
pub mod Tty
pub mod Main
pub mod Tests
