-- ===== src/Npu.antt =====
-- The NPU: src/maps-sim/src/npu/. `dataflow` and the constants are include/common/config.h.
pub mod Config
pub mod Status
pub mod Buffer
pub mod Pe
pub mod Array
pub mod Descriptor
pub mod Schedule
pub mod Dma
pub mod Controller
pub mod Device
