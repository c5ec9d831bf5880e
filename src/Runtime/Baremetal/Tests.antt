-- ===== src/Runtime/Baremetal/Tests.antt =====
-- The bare-metal example on an image of 32 words.
use maps.Prelude.{
  ℕ, ◌≡◌, refl, zero, suc, ◌≤◌, ◌<◌, ◌%◌, ◌+◌, some, none, true, [], ◌∷◌, bound, get_or, replicate,
  arith,
}
use maps.Bus.Bytes.{byte_at}
use maps.Bus.Dram.{IsDramWord}
use maps.Cpu.State
use maps.Machine.{Machine, bound_bus}
use maps.Memory.{Memory}
use maps.Npu.Descriptor.{word_addr}
use maps.Npu.Device.Gemm.{IsReadyDevice}
use maps.Npu.Device.Tests.{
  device, product, device-IsReady, product-valid, product-IsNonNegative, product-IsInMemory,
  product-IsApart,
}
use maps.Runtime.Baremetal.{Image, main, entry}
use maps.Runtime.Baremetal.Loaded.{IsKept, IsLoaded, IsFinished, HoldsText, npu_done}
use maps.Runtime.Baremetal.Run.{main-IsFinished, entry-exits}
use maps.Runtime.Driver.Tests.{object, product-IsClear}
use maps.Runtime.Syscall.Effects.{IsRunning}

-- A, B and C from word 1 on, the status in word 13, the zero in word 14, and the message from word 15
-- on; the descriptor has the words from 20 on.
abbrev memory : Memory
memory = record {
  words =
      0
      ∷ 1
      ∷ 2
      ∷ 3
      ∷ 4
      ∷ 5
      ∷ 6
      ∷ 7
      ∷ 8
      ∷ 0
      ∷ 0
      ∷ 0
      ∷ 0
      ∷ 0
      ∷ 0
      ∷ 0x2075706e
      ∷ 0x656e6f64
      ∷ 10
      ∷ replicate 14 0;
}

abbrev image : Image
image = record {
  status = 52;
  desc = 80;
  a = 4;
  b = 20;
  c = 36;
  bss_value = 56;
  done_msg = 60;
  fail_msg = 72;
}

abbrev machine : Machine
machine = record {
  bus = bound_bus;
  cpu = State.make bound;
  store = record { memory = memory; npu = device; console = [] };
  exit_code = 0;
}

ready : IsReadyDevice device memory
ready =
    let h = device-IsReady in
    let r = h.ready in
    record {
      device_bound = h.device_bound;
      controller_bound = h.controller_bound;
      ready = record {
        not_busy = r.not_busy;
        memory_bound = r.memory_bound;
        size_known = r.size_known;
        memory_small = omega arith;
        input_size = r.input_size;
        weight_size = r.weight_size;
        output_size = r.output_size;
      };
    }

kept : (addr : ℕ) → 52 ≤ addr → addr < 80 → IsKept product 80 addr
unfolding word_addr
kept addr low high = record {
  outside_c = λ i j (p, q). omega (arith, low, p, q);
  outside_object = λ f p. omega (arith, high);
}

in_dram : (addr : ℕ) → addr % 4 ≡ 0 → addr < 128 → IsDramWord bound_bus machine.store addr
in_dram addr aligned h = record {
  memory_bound = refl;
  aligned = aligned;
  below_devices = omega (arith, h);
  memory_small = omega arith;
  in_memory = omega (arith, h);
}

message_char : (i : ℕ) → i < 9 → byte_at memory.words (60 + i) ≡ get_or npu_done i 0
message_char zero h = refl
message_char (suc zero) h = refl
message_char (suc (suc zero)) h = refl
message_char (suc (suc (suc zero))) h = refl
message_char (suc (suc (suc (suc zero)))) h = refl
message_char (suc (suc (suc (suc (suc zero))))) h = refl
message_char (suc (suc (suc (suc (suc (suc zero)))))) h = refl
message_char (suc (suc (suc (suc (suc (suc (suc zero))))))) h = refl
message_char (suc (suc (suc (suc (suc (suc (suc (suc zero)))))))) h = refl
message_char (suc (suc (suc (suc (suc (suc (suc (suc (suc i))))))))) h = absurd (omega (arith, h))

message : HoldsText bound_bus 32 memory.words 60 npu_done
message = record {
  in_dram = λ i h. record {
    memory_bound = refl;
    below_devices = omega (arith, h);
    memory_small = omega arith;
    in_memory = omega (arith, h);
  };
  chars = message_char;
}

loaded : IsLoaded image machine
loaded = record {
  running = record { registers = refl; on = refl };
  object = object;
  not_null = λ e. omega (arith, e);
  npu_bound = refl;
  device = ready;
  valid = product-valid;
  fit = product-IsNonNegative;
  inside = product-IsInMemory;
  apart = record { a_apart = product-IsApart.a_apart; b_apart = product-IsApart.b_apart };
  clear = product-IsClear;
  status_in_dram = in_dram 52 refl (omega arith);
  status_kept = kept 52 (omega arith) (omega arith);
  bss_in_dram = in_dram 56 refl (omega arith);
  bss_kept = kept 56 (omega arith) (omega arith);
  bss_zero = refl;
  message = message;
  message_kept = λ i h. kept (60 + i) (omega arith) (omega (arith, h));
  message_apart = λ i h. omega arith;
}

main-IsFinished_example :
    (m' : Machine) × (main image machine ≡ some (m', some 0))
    × (m'.store.console ≡ npu_done)
    × IsFinished image memory.words m'.store.memory.words
    × IsRunning m'
main-IsFinished_example = main-IsFinished image machine loaded

entry-exits_example :
    (m' : Machine) × (entry image machine ≡ some (m', none))
    × (m'.exit_code ≡ 0)
    × (m'.cpu.halted ≡ true)
    × (m'.store.console ≡ npu_done)
    × IsFinished image memory.words m'.store.memory.words
entry-exits_example = entry-exits image machine loaded
