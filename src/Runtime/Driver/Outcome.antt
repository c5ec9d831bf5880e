-- ===== src/Runtime/Driver/Outcome.antt =====
-- The results that the driver can return, whatever the machine and the memory hold.
use maps.Prelude.{
  ℕ, ◌≡◌, ◌<◌, ◌==◌, ◌⊎◌, inl, inr, refl, ap, ◌∙◌, sym, subst, Bool, true, false, some, none,
  Option, bound, arith, if◌then◌else◌, Bool-cases,
}
use maps.Bus.{Bus, Store}
use maps.Npu.Device
use maps.Npu.Device.{DeviceRun}
use maps.Npu.Device.Done.{start-Answers, Answers}
use maps.Npu.Status.{NpuState}
use maps.Runtime.Access.{M, pure, after, stored, store32, ◌>>=◌, ◌>>◌}
use maps.Runtime.Driver.{
  npu_reg, cmd_reg, cmd_start, desc_init, desc_valid, start, wait_done, gemm, minus, dataflow_os,
}
use maps.Runtime.Driver.Gemm.{checked}
use maps.Runtime.Driver.Registers.{
  addressed, ran, passed_on, store-cmd_start_lem, store-desc_addr, wait_done-answer, answer,
}

-- An outcome with a value, of two steps: both have one.
after-some :
    {A B : Type 0} (f : A → M B) (o : Option (Store × Option A)) (s' : Store) (b : B)
    → after f o ≡ some (s', some b)
    → (s : Store) × (a : A) × (o ≡ some (s, some a)) × (f a s ≡ some (s', some b))
after-some f none s' b e = cc
after-some f (some (s, none)) s' b e = cc
after-some f (some (s, some a)) s' b e = (s, a, refl, e)

returned :
    (t s' : Store) (v result : ℕ)
    → ◌≡◌ {A = Option (Store × Option ℕ)} (some (t, some v)) (some (s', some result))
    → result ≡ v
returned t s' v result e = cc

stored_done :
    (ok : Bool) (t s' : Store) → stored (some (t, ok)) ≡ some (s', some tt) → (ok ≡ true) × (t ≡ s')
stored_done true t s' e = (refl, cc)
stored_done false t s' e = cc

module _ (bus : Bus) (npu_bound : bus.npu ≡ bound) where
  passed_on-done :
      (s s' : Store) (o : Option DeviceRun)
      → Answers o
      → passed_on bus npu_bound s o ≡ some (s', some tt)
      → s'.npu.controller.state ≡ NpuState.done
  unfolding passed_on
  passed_on-done s s' none h e = cc
  passed_on-done s s' (some r) h e =
      let (ok, same) = stored_done r.done (ran bus npu_bound s r) s' e in
      subst (λ (t : Store). t.npu.controller.state ≡ NpuState.done) same (h ok)

  -- After a start that does not fault the CPU the NPU is DONE: `maps_npu_wait_done` returns 0 at its
  -- first poll.
  pub start-wait_done :
      (addr polls : ℕ) (s s' : Store)
      → 0 < polls
      → start bus addr s ≡ some (s', some tt)
      → wait_done bus polls s' ≡ some (s', some 0)
  unfolding start
  start-wait_done addr polls s s' more e =
      let s1 = addressed bus npu_bound addr s in
      let run = Device.start s1.npu s1.memory in
      let issued : passed_on bus npu_bound s1 run ≡ some (s', some tt) =
        sym (
          ap (after (λ _. store32 bus (npu_reg cmd_reg) cmd_start))
            (store-desc_addr bus npu_bound s addr)
          ∙ store-cmd_start_lem bus npu_bound s1)
        ∙ e in
      let finished = passed_on-done s1 s' run (start-Answers s1.npu s1.memory) issued in
      wait_done-answer bus npu_bound polls s' more
      ∙ ap (λ state. some (s', some (answer bus npu_bound state))) finished

  -- Whatever the machine and the memory hold, and whatever the arguments, a call of `maps_npu_gemm` that
  -- returns to its caller returns 0 or -3, never -1 or -2: a start command that fails faults the CPU.
  pub gemm-returns :
      (desc desc_addr a b c m n k : ℕ) (s s' : Store) (result : ℕ)
      → gemm bus desc desc_addr a b c m n k s ≡ some (s', some result)
      → (result ≡ 0) ⊎ (result ≡ minus 3)
  unfolding gemm
  gemm-returns desc desc_addr a b c m n k s s' result e =
      let polls = wait_done bus 1000000 in
      let begin : M ℕ = start bus desc_addr >> polls in
      let (s1, x, e1, f1) =
        after-some (λ (y : Unit {0}). desc_valid bus desc >>= checked begin)
          (desc_init bus desc a b c m n k dataflow_os 16 16 16 s) s' result e in
      let (s2, valid, e2, f2) = after-some (checked begin) (desc_valid bus desc s1) s' result f1 in
      let next = λ (refused : Bool). (if refused then pure (minus 3) else begin) s2 in
      elim (Bool-cases (valid == 0)) [
        | inl bad ↦ inr (returned s2 s' (minus 3) result (sym (ap next bad) ∙ f2))
        | inr ok ↦
            let (s3, y, e3, f3) =
              after-some (λ (z : Unit {0}). polls) (start bus desc_addr s2) s' result
                (sym (ap next ok) ∙ f2) in
            inl (
              returned s3 s' 0 result
                (sym (start-wait_done desc_addr 1000000 s2 s3 (omega arith) e3) ∙ f3))
      ]
