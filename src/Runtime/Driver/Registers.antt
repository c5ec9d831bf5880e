-- ===== src/Runtime/Driver/Registers.antt =====
-- The registers of the NPU, as the driver uses them.
use maps.Prelude.{
  ℕ, zero, suc, ◌≡◌, ◌<◌, arith, ◌==◌, refl, ap, ◌∙◌, true, some, none, Option, bound,
  if◌then◌else◌,
}
use maps.Bus.{Bus, Store, write32, read32, write_npu}
use maps.Npu.Device
use maps.Npu.Device.{NpuDevice, DeviceRun}
use maps.Npu.Status.{NpuState, state_word, idle, busy, done, error}
use maps.Runtime.Access.{M, pure, after, stored, store32, load32}
use maps.Runtime.Driver.{
  npu_reg, desc_addr_reg, cmd_reg, status_reg, cmd_start, state_done, state_error, start, wait_done,
  minus,
}

module _ (bus : Bus) (npu_bound : bus.npu ≡ bound) where
  -- The device with the address of a descriptor.
  abbrev pub addressed : ℕ → Store → Store
  addressed addr s = record s { npu = record (s.npu) { desc_addr = addr } }

  pub store-desc_addr :
      (s : Store) (addr : ℕ)
      → store32 bus (npu_reg desc_addr_reg) addr s ≡ some (addressed addr s, some tt)
  unfolding store32 write32 write_npu Device.write32
  store-desc_addr s addr = rw npu_bound refl

  -- What the start command makes of the store.
  abbrev pub ran : Store → DeviceRun → Store
  ran s r = record s { npu = r.device; memory = r.memory }

  -- The start command, as the bus passes it on.
  unfoldable pub passed_on : Store → Option DeviceRun → Option (Store × Option (Unit {0}))
  passed_on s o = stored (elim o [ none ↦ none | some r ↦ some (ran s r, r.done) ])

  pub store-cmd_start_lem :
      (s : Store)
      → store32 bus (npu_reg cmd_reg) cmd_start s ≡ passed_on s (Device.start s.npu s.memory)
  unfolding store32 write32 write_npu Device.write32 passed_on
  store-cmd_start_lem s = rw npu_bound refl

  store-cmd_start :
      (s : Store) (r : DeviceRun)
      → Device.start s.npu s.memory ≡ some r
      → r.done ≡ true
      → store32 bus (npu_reg cmd_reg) cmd_start s ≡ some (ran s r, some tt)
  unfolding passed_on
  store-cmd_start s r runs ok =
      store-cmd_start_lem s ∙ ap (passed_on s) runs ∙ ap (λ b. stored (some (ran s r, b))) ok

  pub start-ran :
      (s : Store) (addr : ℕ) (r : DeviceRun)
      → Device.start (record (s.npu) { desc_addr = addr }) s.memory ≡ some r
      → r.done ≡ true
      → start bus addr s ≡ some (ran s r, some tt)
  unfolding start
  start-ran s addr r runs ok =
      ap (after (λ _. store32 bus (npu_reg cmd_reg) cmd_start)) (store-desc_addr s addr)
      ∙ store-cmd_start (addressed addr s) r runs ok

  pub load-status :
      (s : Store)
      → load32 bus (npu_reg status_reg) s ≡ some (s, some (state_word s.npu.controller.state))
  unfolding load32 read32 Device.read32
  load-status s = rw npu_bound refl

  -- What `maps_npu_wait_done` makes of the state.
  abbrev pub answer : NpuState → ℕ
  answer idle = minus 1
  answer busy = minus 1
  answer done = 0
  answer error = minus 2

  -- What a poll does with the status.
  abbrev poll : M ℕ → ℕ → M ℕ
  poll rest status =
      if status == state_done
      then pure 0
      else if status == state_error
      then pure (minus 2)
      else rest

  status_answer :
      (state : NpuState) (s : Store) (rest : M ℕ)
      → (answer state ≡ minus 1 → rest s ≡ some (s, some (minus 1)))
      → poll rest (state_word state) s ≡ some (s, some (answer state))
  status_answer idle s rest e = e refl
  status_answer busy s rest e = e refl
  status_answer done s rest e = refl
  status_answer error s rest e = refl

  -- `maps_npu_wait_done` with a poll or more returns what the state of the device says, and changes
  -- nothing: 0 where it is DONE, -2 where it is ERROR, and -1 otherwise.
  pub wait_done-answer :
      (polls : ℕ) (s : Store)
      → 0 < polls
      → wait_done bus polls s ≡ some (s, some (answer s.npu.controller.state))
  unfolding wait_done
  wait_done-answer zero s h = absurd (omega arith)
  wait_done-answer (suc zero) s h =
      ap (after (poll (pure (minus 1)))) (load-status s)
      ∙ status_answer s.npu.controller.state s (pure (minus 1)) (λ e. refl)
  wait_done-answer (suc (suc polls)) s h =
      let rest = wait_done bus (suc polls) in
      ap (after (poll rest)) (load-status s)
      ∙ status_answer s.npu.controller.state s rest
          (λ e. wait_done-answer (suc polls) s (omega arith) ∙ ap (λ n. some (s, some n)) e)
