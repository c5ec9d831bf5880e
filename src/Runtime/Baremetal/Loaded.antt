-- ===== src/Runtime/Baremetal/Loaded.antt =====
-- The bare-metal example in memory: what it finds there and what it leaves.
use maps.Prelude.{
  ℕ, suc, ◌≡◌, ◌≢◌, ◌∙◌, ap, subst, true, some, List, [], ◌∷◌, bound, ◌+◌, ◌/◌, ◌<◌, u32, arith,
  length, get_or,
}
use maps.Bus.{Bus, Store, read8}
use maps.Bus.Bytes.{IsDramByte, byte_at, read8-byte_at}
use maps.Bus.Dram.{IsDramWord}
use maps.Machine.{Machine}
use maps.Machine.Text.{IsText}
use maps.Npu.Controller.Gemm.Correct.{InC}
use maps.Npu.Controller.Gemm.Range.{IsInMemory}
use maps.Npu.Controller.Gemm.Region.{IsApart, product_at}
use maps.Npu.Controller.Tile.Layout.{c_place}
use maps.Npu.Descriptor.{Descriptor, to_words, validate}
use maps.Npu.Descriptor.Roundtrip.{IsNonNegative}
use maps.Npu.Device.Gemm.{IsReadyDevice}
use maps.Runtime.Access.Dram.{IsObject}
use maps.Runtime.Baremetal.{Image}
use maps.Runtime.Driver.Gemm.{request, IsClear}
use maps.Runtime.Syscall.Effects.{IsRunning}

-- `done_msg` without its last zero.
abbrev pub npu_done : List ℕ
npu_done = 110 ∷ 112 ∷ 117 ∷ 32 ∷ 100 ∷ 111 ∷ 110 ∷ 101 ∷ 10 ∷ []

-- A text in DRAM, in a memory with `n` words.
pub record HoldsText (bus : Bus) (n : ℕ) (words : List ℕ) (addr : ℕ) (text : List ℕ) : Type 0 where
  pub in_dram : (i : ℕ) → i < length text → IsDramByte bus n (addr + i)
  pub chars : (i : ℕ) → i < length text → byte_at words (addr + i) ≡ get_or text i 0

pub HoldsText-IsText :
    (bus : Bus) (s : Store) (addr : ℕ) (text : List ℕ)
    → HoldsText bus (length s.memory.words) s.memory.words addr text
    → IsText bus s addr text
HoldsText-IsText bus s addr [] h = tt
HoldsText-IsText bus s addr (ch ∷ text) h =
    let zero_in : 0 < length (ch ∷ text) = omega arith in
    let at0 : addr + 0 ≡ addr = omega arith in
    let in_dram = subst (IsDramByte bus (length s.memory.words)) at0 (h.in_dram 0 zero_in) in
    let first = subst (λ a. byte_at s.memory.words a ≡ ch) at0 (h.chars 0 zero_in) in
    let fits : u32 addr ≡ addr = omega (arith, in_dram.below_devices) in
    (
      ap (read8 bus s) fits ∙ read8-byte_at bus s addr in_dram ∙ ap some first,
      HoldsText-IsText bus s (addr + 1) text (record {
        in_dram = λ i l.
            let at : addr + suc i ≡ addr + 1 + i = omega arith in
            subst (IsDramByte bus (length s.memory.words)) at
              (h.in_dram (suc i) (omega (arith, l)));
        chars = λ i l.
            let at : addr + suc i ≡ addr + 1 + i = omega arith in
            subst (λ a. byte_at s.memory.words a ≡ get_or text i 0) at
              (h.chars (suc i) (omega (arith, l)));
      }),
    )

-- A word of DRAM that the driver leaves alone.
pub record IsKept (d : Descriptor) (base addr : ℕ) : Type 0 where
  pub outside_c : (i j : ℕ) → InC d i j → addr / 4 ≢ c_place d i j
  pub outside_object : (f : ℕ) → f < 10 → addr / 4 ≢ base / 4 + f

-- The product that `main` asks for.
abbrev pub task : Image → Descriptor
task image = request image.a image.b image.c 2 2 2

-- The image in the memory of a machine that is ready: the objects in DRAM and apart from each other,
-- `maps_baremetal_bss_value` 0, and the message in its place.
pub record IsLoaded (image : Image) (m : Machine) : Type 0 where
  pub running : IsRunning m
  pub object : IsObject m.bus image.desc (length m.store.memory.words)
  pub not_null : image.desc ≢ 0
  pub npu_bound : m.bus.npu ≡ bound
  pub device : IsReadyDevice m.store.npu m.store.memory
  pub valid : validate (task image) ≡ true
  pub fit : IsNonNegative (to_words (task image))
  pub inside : IsInMemory (task image) (length m.store.memory.words)
  pub apart : IsApart (task image) m.store.memory.words
  pub clear : IsClear (task image) image.desc
  pub status_in_dram : IsDramWord m.bus m.store image.status
  pub status_kept : IsKept (task image) image.desc image.status
  pub bss_in_dram : IsDramWord m.bus m.store image.bss_value
  pub bss_kept : IsKept (task image) image.desc image.bss_value
  pub bss_zero : get_or m.store.memory.words (image.bss_value / 4) 0 ≡ 0
  pub message :
      HoldsText m.bus (length m.store.memory.words) m.store.memory.words image.done_msg npu_done
  pub message_kept : (i : ℕ) → i < 9 → IsKept (task image) image.desc (image.done_msg + i)
  pub message_apart : (i : ℕ) → i < 9 → (image.done_msg + i) / 4 ≢ image.status / 4

-- What the program leaves: the product in C, the good status, and the other words but those of the
-- descriptor as before.
pub record IsFinished (image : Image) (words words' : List ℕ) : Type 0 where
  pub status_good : get_or words' (image.status / 4) 0 ≡ 0x600d600d
  pub product :
      (i j : ℕ)
      → InC (task image) i j
      → get_or words' (c_place (task image) i j) 0 ≡ product_at (task image) words i j
  pub others :
      (x : ℕ)
      → x ≢ image.status / 4
      → ((i j : ℕ) → InC (task image) i j → x ≢ c_place (task image) i j)
      → ((f : ℕ) → f < 10 → x ≢ image.desc / 4 + f)
      → get_or words' x 0 ≡ get_or words x 0
