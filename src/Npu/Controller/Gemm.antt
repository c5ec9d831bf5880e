-- ===== src/Npu/Controller/Gemm.antt =====
-- `Controller::run` against its specification: C = A * B modulo 2 ^ 32, in DRAM.
pub mod Region
pub mod Loop
pub mod Sum
pub mod Range
pub mod Correct
