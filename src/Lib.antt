-- ===== src/Lib.antt =====
-- MAPS, a simulated RISC-V machine with a matrix accelerator: src/maps-sim.
--
-- The program. A `Machine` (src/maps-sim/src/system/machine.cpp) holds a DRAM, a bus, a CPU and an
-- NPU. The CPU interprets RV32I instructions and reads and writes through the bus; the bus decodes
-- an address to DRAM, to a register of the NPU or to the console. A store to the command register
-- of the NPU loads a descriptor of a matrix product C = A * B from DRAM, and the controller of the
-- NPU runs it: the scheduler cuts it into tiles, the DMA engine carries the tiles between DRAM and
-- the buffers, and the systolic array multiplies them. Loaders put programs into DRAM.
--
-- The files.
--   Prelude      shared names: tests on numbers, lists indexed by native numbers, machine words
--   Memory       src/maps-sim/src/common/memory.cpp, the DRAM
--   Npu          src/maps-sim/src/npu: Pe, Array, Buffer, Descriptor, Schedule, Dma, Controller,
--                Device, each the class of that name (Schedule is the class Scheduler)
--   Bus          src/maps-sim/src/common/bus.cpp
--   Cpu          src/maps-sim/src/cpu/cpu.cpp: State, Decode (fields and immediates), Alu. Fields and
--                Immediates hold the arithmetic that the decoder is compared with
--   Machine      src/maps-sim/src/system/machine.cpp
--   Loader       src/maps-sim/src/system/loader.cpp
--   Runtime      src/maps-sim/src/runtime: Access, the loads and stores of a C program, Driver
--                (npu_driver.c), Syscall (syscall.c), and Baremetal, the program
--                src/maps-sim/examples/baremetal/main.c with its call in crt0.S
--   Os           src/maps-os: Npu and Console (drivers), Syscall and Kernel (kernel)
-- The proofs follow the same tree. A run of the controller against its specification is in
-- Npu/Controller/Tile (one tile: Layout, Fetch, Load, Compute, Correct) and Npu/Controller/Gemm
-- (the plan: Region, Loop, Sum, Correct); Npu/Device/Gemm and Runtime/Driver/Gemm carry it to the
-- registers and to the call in C.
-- A definition has the name of the C++ function in snake case, and a record has the name of the
-- class with its fields. An object is a record that an operation takes and gives back; the DRAM,
-- which the controller, the bus and the machine share by pointers, is handed to each operation
-- beside the object, and a pointer is `null` or `bound`. `Controller.run_tile` is a state monad
-- with failure over the controller and the DRAM. A C program on the machine is a function over the
-- `Store` of the bus: `none` is an NPU run that does not end, and a pair without a value a program
-- that stops because the bus refuses a load or a store, which faults the CPU. A program with system
-- calls is such a function over the `Machine`, where an ECALL is `handle_syscall` on the registers
-- that the inline assembly sets; a pair without a value is then also the exit call. A pointer in C is its
-- address, and a C `int` its 32-bit pattern.
--
-- Numbers. A UINT32 is a native number, reduced by `u32` wherever the code computes with it; an
-- INT32 is its bit pattern. A signed overflow, which C++ leaves undefined, is modelled as wrapping.
--
-- Loops. A loop with a known number of rounds recurs on the rounds. The loops of
-- `Scheduler::build_plan` step a UINT32 that can wrap, so they take 2 ^ 32 rounds of fuel, which
-- exhaust the values of the counter: `none` is a loop that does not end. The `none` of the
-- operations that reach the scheduler has that meaning too: `Controller.run`, `Device.write32`,
-- `Bus.write32`, `Cpu.step`, `Machine.run`.
--
-- Not modelled. Files are their bytes, or `none` where they cannot be read. The registers that
-- compiled C code uses, the clearing of .bss by the start-up code, the start-up code, the trap vector
-- and the user program of src/maps-os, the compiler and the tests are not modelled. The addresses
-- that a linker gives are arguments. The texts of `kmain` and its
-- user program are arguments.
pub mod Prelude
pub mod Runtime
pub mod Os
pub mod Memory
pub mod Npu
pub mod Bus
pub mod Cpu
pub mod Machine
pub mod Loader
