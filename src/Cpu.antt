-- ===== src/Cpu.antt =====
-- kernel/cpu: the spin lock, the interrupt controller, the descriptor tables, the interrupts and the ports.
pub mod Ports
pub mod Pic
pub mod Spinlock
pub mod Descriptors
pub mod Interrupt
