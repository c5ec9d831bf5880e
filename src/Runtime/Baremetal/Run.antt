-- ===== src/Runtime/Baremetal/Run.antt =====
-- The bare-metal example from its first statement to its result.
use maps.Prelude.{
  ℕ, ◌≡◌, ◌∙◌, ap, sym, subst, Bool, true, some, none, List, ◌++◌, ◌==◌, ◌+◌, ◌/◌, ◌%◌, arith,
  length, length-set, get_or, set, byte_of, get_or-set_self, get_or-set_ne, if◌then◌else◌, bit_or,
  sub32,
}
use maps.Memory
use maps.Memory.Access.{read_in_range, write_in_range_lem}
use maps.Bus.{Store}
use maps.Bus.Bytes.{IsDramByte}
use maps.Bus.Dram.{IsDramWord, read32-dram, write32-dram}
use maps.Machine.{Machine}
use maps.Machine.Text.{IsText}
use maps.Npu.Controller.Tile.Layout.{c_place}
use maps.Runtime.Access.{stored, store32, load32}
use maps.Runtime.Access.Dram.{with_words}
use maps.Runtime.Baremetal.{Image, is_good, report, main, entry}
use maps.Runtime.Driver.Gemm.{HasResult, gemm-done}
use maps.Runtime.Syscall.{Program, pure, after, ◌>>◌, on_machine, on_bus, sys_write, sys_exit}
use maps.Runtime.Syscall.Effects.{IsRunning, sys_write-Says, sys_exit-stops}
use maps.Runtime.Baremetal.Loaded.{HoldsText-IsText, IsFinished, IsLoaded, npu_done, task}

module _ (image : Image) (m : Machine) (ok : IsLoaded image m) (s1 : Store)
    (has : HasResult (task image) image.desc m.store.memory.words s1.memory.words) where
  abbrev m1 : Machine
  m1 = record m { store = s1 }

  abbrev words1 : List ℕ
  words1 = s1.memory.words

  -- The word of DRAM is still there.
  still_dram : (addr : ℕ) → IsDramWord m.bus m.store addr → IsDramWord m.bus s1 addr
  still_dram addr h = record {
    memory_bound = h.memory_bound;
    aligned = h.aligned;
    below_devices = h.below_devices;
    memory_small = omega (arith, h.memory_small, has.same_size);
    in_memory = omega (arith, h.in_memory, has.same_size);
  }

  bss_loaded : load32 m.bus image.bss_value s1 ≡ some (s1, some 0)
  unfolding load32
  bss_loaded =
      let at = still_dram image.bss_value ok.bss_in_dram in
      let kept = ok.bss_kept in
      ap (λ v. some (s1, v))
        (read32-dram m.bus s1 image.bss_value at
          ∙ read_in_range s1.memory (image.bss_value / 4) at.in_memory
          ∙ ap some
              (has.outside (image.bss_value / 4) kept.outside_c kept.outside_object ∙ ok.bss_zero))

  good : is_good image 0 m1 ≡ some (m1, some true)
  unfolding is_good
  good = ap (λ o. after (λ v. pure (v == 0)) (on_machine m1 o)) bss_loaded

  -- The store with the status in place.
  abbrev s2 : Store
  s2 = with_words s1 (set words1 (image.status / 4) 0x600d600d)

  status_stored : store32 m.bus image.status 0x600d600d s1 ≡ some (s2, some tt)
  unfolding store32
  status_stored =
      let at = still_dram image.status ok.status_in_dram in
      ap stored (
        write32-dram m.bus s1 image.status at 0x600d600d
        ∙ ap (λ (r : Memory.Memory × Bool). some (record s1 { memory = r.0 }, true))
            (write_in_range_lem s1.memory (image.status / 4) 0x600d600d at.in_memory))

  same_size : length s2.memory.words ≡ length m.store.memory.words
  same_size = length-set words1 (image.status / 4) 0x600d600d ∙ has.same_size

  message_there : IsText m.bus s2 image.done_msg npu_done
  message_there =
      let message = ok.message in
      HoldsText-IsText m.bus s2 image.done_msg npu_done (record {
        in_dram = λ i l.
            subst (λ n. IsDramByte m.bus n (image.done_msg + i)) (sym same_size)
              (message.in_dram i l);
        chars = λ i l.
            let x = (image.done_msg + i) / 4 in
            let kept = ok.message_kept i l in
            let word : get_or s2.memory.words x 0 ≡ get_or m.store.memory.words x 0 =
              get_or-set_ne words1 (image.status / 4) x 0x600d600d 0
                (λ e. ok.message_apart i l (sym e))
              ∙ has.outside x kept.outside_c kept.outside_object in
            ap (λ w. byte_of w ((image.done_msg + i) % 4)) word ∙ message.chars i l;
      })

  finished : IsFinished image m.store.memory.words s2.memory.words
  finished =
      let at = still_dram image.status ok.status_in_dram in
      let status = ok.status_kept in
      record {
        status_good = get_or-set_self words1 (image.status / 4) 0x600d600d 0 at.in_memory;
        product = λ i j r.
            get_or-set_ne words1 (image.status / 4) (c_place (task image) i j) 0x600d600d 0
              (status.outside_c i j r)
            ∙ has.inside i j r;
        others = λ x off out out'.
            get_or-set_ne words1 (image.status / 4) x 0x600d600d 0 (λ e. off (sym e))
            ∙ has.outside x out out';
      }

  -- The machine after the message.
  reports :
      (m3 : Machine)
      → sys_write image.done_msg 9 (record m { store = s2 }) ≡ some (m3, some 9)
      → report image 0 m1 ≡ some (m3, some 0)
  unfolding report
  reports m3 wrote =
      let text : Program ℕ = sys_write image.done_msg 9 in
      let store_status : Bool → Program (Unit {0}) = λ good. on_bus (λ bus.
        store32 bus image.status (if good then 0x600d600d else bit_or 0xbad00000 (sub32 0 0))) in
      let last : Program ℕ = text >> pure 0 in
      ap (after (λ good. store_status good >> last)) good
      ∙ ap (λ o. after (λ _. last) (on_machine m1 o)) status_stored
      ∙ ap (after (λ _. pure 0)) wrote

-- `main` of the bare-metal example, on an image that is loaded: it returns 0, writes "npu done" and a
-- newline to the console, leaves the status 0x600d600d and the product of A and B in C, keeps every
-- other word of DRAM but those of the descriptor, and the CPU is not halted.
pub main-IsFinished :
    (image : Image) (m : Machine)
    → IsLoaded image m
    → (m' : Machine) × (main image m ≡ some (m', some 0))
      × (m'.store.console ≡ m.store.console ++ npu_done)
      × IsFinished image m.store.memory.words m'.store.memory.words
      × IsRunning m'
unfolding main
main-IsFinished image m ok =
    let (s1, ran, has, console) =
      gemm-done m.bus m.store image.desc image.a image.b image.c 2 2 2 ok.object ok.not_null
        ok.npu_bound ok.device ok.valid ok.fit ok.inside ok.apart ok.clear in
    let s2 = s2 image m ok s1 has in
    let m2 : Machine = record m { store = s2 } in
    let running = ok.running in
    let (m3, wrote, says) =
      sys_write-Says m2 (record { registers = running.registers; on = running.on }) image.done_msg
        npu_done (message_there image m ok s1 has) in
    (
      m3,
      ap (λ o. after (report image) (on_machine m o)) ran ∙ reports image m ok s1 has m3 wrote,
      ap (λ (s : Store). s.console) says.said ∙ ap (λ c. c ++ npu_done) console,
      subst (λ (s : Store). IsFinished image m.store.memory.words s.memory.words) (sym says.said)
          (finished image m ok s1 has),
      says.running,
    )

-- The start-up code from the call of `main` on, on an image that is loaded: the program ends by the
-- exit call, with the exit code 0, "npu done" and a newline on the console, and DRAM as `main` leaves
-- it.
pub entry-exits :
    (image : Image) (m : Machine)
    → IsLoaded image m
    → (m' : Machine) × (entry image m ≡ some (m', none))
      × (m'.exit_code ≡ 0)
      × (m'.cpu.halted ≡ true)
      × (m'.store.console ≡ m.store.console ++ npu_done)
      × IsFinished image m.store.memory.words m'.store.memory.words
unfolding entry
entry-exits image m ok =
    let (m1, returned, console, finished, running) = main-IsFinished image m ok in
    let (m2, exits, code, halted, same) = sys_exit-stops m1 running 0 in
    (
      m2,
      ap (after sys_exit) returned ∙ exits,
      code,
      halted,
      ap (λ (s : Store). s.console) same ∙ console,
      subst (λ (s : Store). IsFinished image m.store.memory.words s.memory.words) (sym same)
          finished,
    )
