-- ===== src/Os.antt =====
-- The operating system that runs on the machine: src/maps-os, its drivers and its system calls.
pub mod Npu
pub mod Console
pub mod Syscall
pub mod Kernel
pub mod Tests
