-- ===== src/Os/Npu/Submit.antt =====
-- `npu_gemm` of the operating system, and its system call.
use maps.Prelude.{
  ℕ, zero, suc, ◌<◌, ◌≡◌, ◌≢◌, ◌==◌, refl, ap, ◌∙◌, true, false, some, bound, length, arith,
  if◌then◌else◌,
}
use maps.Bus.{Bus, Store, read32}
use maps.Npu.Controller.Gemm.Range.{IsInMemory}
use maps.Npu.Controller.Gemm.Region.{IsApart}
use maps.Npu.Descriptor.{to_words, validate, dataflow_word}
use maps.Npu.Descriptor.Roundtrip.{IsNonNegative}
use maps.Npu.Device
use maps.Npu.Device.Gemm.{IsReadyDevice}
use maps.Npu.Status.{NpuState, NpuError, state_word, error_word, idle, busy, done, error}
use maps.Os.Npu.{
  npu_desc_init, npu_submit, npu_gemm, poll_done, error_code, reg_at, npu_desc_addr, npu_cmd,
  npu_cmd_start, npu_error, npu_state_done, npu_state_error,
}
use maps.Runtime.Access.{M, pure, after, after-after, store32, load32}
use maps.Runtime.Access.Dram.{IsObject, with_words}
use maps.Runtime.Driver.{desc_init, start, minus}
use maps.Runtime.Driver.Fields.{desc_init-put_all}
use maps.Runtime.Driver.Gemm.{request, written, IsClear, HasResult, start-HasResult}
use maps.Runtime.Driver.Registers.{load-status}

module _ (bus : Bus) (npu_bound : bus.npu ≡ bound) where
  load-error :
      (s : Store)
      → load32 bus (reg_at npu_error) s ≡ some (s, some (error_word s.npu.controller.error))
  unfolding load32 read32 Device.read32
  load-error s = rw npu_bound refl

  -- What the loop of `npu_submit` makes of the state and the error.
  abbrev pub verdict : NpuState → NpuError → ℕ
  verdict idle code = minus 2
  verdict busy code = minus 2
  verdict done code = 0
  verdict error code = minus (error_word code)

  abbrev poll : M ℕ → ℕ → M ℕ
  poll rest status =
      if status == npu_state_done
      then pure 0
      else if status == npu_state_error
      then error_code bus
      else rest

  status_verdict :
      (state : NpuState) (s : Store) (rest : M ℕ)
      → (verdict state s.npu.controller.error ≡ minus 2 → rest s ≡ some (s, some (minus 2)))
      → poll rest (state_word state) s ≡ some (s, some (verdict state s.npu.controller.error))
  status_verdict idle s rest e = e refl
  status_verdict busy s rest e = e refl
  status_verdict done s rest e = refl
  status_verdict error s rest e = ap (after (λ code. pure (minus code))) (load-error s)

  -- The loop of `npu_submit` with a poll or more: 0 where the device is DONE, the negative error where it
  -- is in the state ERROR, and -2 otherwise; nothing changes.
  poll_done-verdict :
      (polls : ℕ) (s : Store)
      → 0 < polls
      → poll_done bus polls s
        ≡ some (s, some (verdict s.npu.controller.state s.npu.controller.error))
  unfolding poll_done
  poll_done-verdict zero s h = absurd (omega arith)
  poll_done-verdict (suc zero) s h =
      ap (after (poll (pure (minus 2)))) (load-status bus npu_bound s)
      ∙ status_verdict s.npu.controller.state s (pure (minus 2)) (λ e. refl)
  poll_done-verdict (suc (suc polls)) s h =
      let rest = poll_done bus (suc polls) in
      ap (after (poll rest)) (load-status bus npu_bound s)
      ∙ status_verdict s.npu.controller.state s rest
          (λ e. poll_done-verdict (suc polls) s (omega arith) ∙ ap (λ n. some (s, some n)) e)

  submit_started :
      (base : ℕ) (s s' : Store)
      → base ≢ 0
      → start bus base s ≡ some (s', some tt)
      → s'.npu.controller.state ≡ NpuState.done
      → npu_submit bus base s ≡ some (s', some 0)
  unfolding npu_submit start
  submit_started base s s' not_null started finished =
      let named : (base == 0) ≡ false = ground (arith, not_null) in
      let issue = store32 bus (reg_at npu_cmd) npu_cmd_start in
      let polls = poll_done bus 1000000 in
      rw named (
        after-after (λ (x : Unit {0}). issue) (λ (x : Unit {0}). polls)
          (store32 bus (reg_at npu_desc_addr) base s)
        ∙ ap (after (λ _. polls)) started
        ∙ poll_done-verdict 1000000 s' (omega arith)
        ∙ ap (λ state. some (s', some (verdict state s'.npu.controller.error))) finished)

-- `npu_gemm` of the operating system, under the conditions of the runtime's driver: it returns 0, C is
-- the product of A and B modulo 2 ^ 32, and every other word of DRAM is as before, those of the static
-- descriptor excepted.
pub npu_gemm-HasResult :
    (bus : Bus) (s : Store) (base a b c m n k : ℕ)
    → IsObject bus base (length s.memory.words)
    → base ≢ 0
    → bus.npu ≡ bound
    → IsReadyDevice s.npu s.memory
    → validate (request a b c m n k) ≡ true
    → IsNonNegative (to_words (request a b c m n k))
    → IsInMemory (request a b c m n k) (length s.memory.words)
    → IsApart (request a b c m n k) s.memory.words
    → IsClear (request a b c m n k) base
    → (s' : Store) × (npu_gemm bus base a b c m n k s ≡ some (s', some 0))
      × HasResult (request a b c m n k) base s.memory.words s'.memory.words
unfolding npu_gemm npu_desc_init desc_init dataflow_word
npu_gemm-HasResult bus s base a b c m n k object not_null npu_bound device valid fit inside apart
      clear =
    let d = request a b c m n k in
    let (s', started, finished, has, _) =
      start-HasResult bus s base d object not_null valid fit clear npu_bound device inside
        (omega arith) apart in
    (
      s',
      ap (after (λ _. npu_submit bus base))
            (desc_init-put_all bus base (length s.memory.words) object not_null s d refl)
          ∙ submit_started bus npu_bound base (with_words s (written s base d)) s' not_null started
              finished,
      has,
    )
