-- ===== src/Runtime.antt =====
-- The bare-metal runtime, C code that runs on the machine: src/maps-sim/src/runtime.
pub mod Access
pub mod Driver
pub mod Syscall
pub mod Baremetal
