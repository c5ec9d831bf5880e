-- ===== src/Npu/Controller/Count.antt =====
-- The performance counter of multiplications after a run.
use maps.Prelude.{
  ℕ, ◌+◌, ◌*◌, ◌%◌, ◌^◌, ◌<◌, ◌≡◌, ◌∙◌, ap, refl, subst, Bool, true, Option, none, some, List, [],
  ◌∷◌, is_null, Bool-cases, inl, inr, arith,
}
use maps.Npu.Controller.{run, run_plan, scheduled, stop, tile_error, check_matrix_range}
use maps.Npu.Controller.Monad.{Npu}
use maps.Npu.Controller.Tile.{run_tile}
use maps.Npu.Controller.Tile.Error.{Kept, counted, run_tile-Counts}
use maps.Npu.Descriptor.{validate}
use maps.Npu.Schedule.{GemmTile}
use maps.Npu.Schedule.Plan.{IsSmall, plan_of, build_plan-plan_of, validate-IsPositive}
use maps.Npu.Schedule.Volume.{volume, volume-plan_of}
use maps.Npu.Status.{NpuState, NpuError}

abbrev counted_all : List GemmTile → ℕ → ℕ
counted_all [] n = n
counted_all (tile ∷ rest) n = counted_all rest (counted tile n)

counted_all-volume :
    (plan : List GemmTile) (n : ℕ) → n < 2 ^ 64 → counted_all plan n ≡ (n + volume plan) % 2 ^ 64
counted_all-volume [] n h = omega (arith, h)
counted_all-volume (tile ∷ rest) n h =
    counted_all-volume rest (counted tile n) (omega arith) ∙ omega arith

-- A success has the count `n`.
Reads : ℕ → Option (Npu × Bool) → Type 0
Reads n none = Unit {0}
Reads n (some (s, ok)) = ok ≡ true → s.controller.perf.mac_count ≡ n

run_plan-Reads :
    (plan : List GemmTile) (s : Npu)
    → Reads (counted_all plan s.controller.perf.mac_count) (some (run_plan plan s))
unfolding run_plan stop Reads
run_plan-Reads [] s = λ e. refl
run_plan-Reads (tile ∷ rest) s =
    let s' = (run_tile tile s).0 in
    let n = counted tile s.controller.perf.mac_count in
    elim (run_tile tile s).1
        as (λ o.
          Kept s.controller.error n (s', o)
          → Reads (counted_all rest n) (
              some (elim o [
                | some _ ↦ run_plan rest s'
                | none ↦ stop (tile_error s'.controller.error) s'
              ]))) [
                | some x ↦ λ (_, count).
                    subst (λ y. Reads (counted_all rest y) (some (run_plan rest s'))) count
                      (run_plan-Reads rest s')
                | none ↦ λ kept e. cc
              ]
      (run_tile-Counts tile s)

abbrev started : Npu → Npu
started s = record s {
  controller = record (s.controller) { state = NpuState.busy; error = NpuError.no_error };
}

run-Reads :
    (s : Npu)
    → IsSmall s.controller.current_desc
    → Reads (counted_all (plan_of s.controller.current_desc) s.controller.perf.mac_count) (run s)
unfolding run scheduled stop Reads
run-Reads s small = elim (Bool-cases (validate s.controller.current_desc)) [
  | inr e ↦ rw e (λ h. cc)
  | inl e ↦ rw e (elim (Bool-cases (check_matrix_range s.controller s.memory)) [
    | inr f ↦ rw f (λ h. cc)
    | inl f ↦ rw f (elim (Bool-cases (is_null s.controller.memory)) [
      | inl g ↦ rw g (λ h. cc)
      | inr g ↦
          let plan = build_plan-plan_of s.controller.current_desc e small in
          rw g (rw (plan, scheduled) (run_plan-Reads (plan_of s.controller.current_desc) _))
    ])
  ])
]

-- A run that succeeds, on a valid descriptor with dimensions below 2 ^ 31, adds exactly the
-- m * n * k multiplications of the product to the counter, modulo 2 ^ 64, however the scheduler cuts
-- it into tiles.
pub run-mac_count :
    (s s' : Npu)
    → validate s.controller.current_desc ≡ true
    → IsSmall s.controller.current_desc
    → s.controller.perf.mac_count < 2 ^ 64
    → run s ≡ some (s', true)
    → s'.controller.perf.mac_count
      ≡ (s.controller.perf.mac_count
          + s.controller.current_desc.matrix_m * s.controller.current_desc.matrix_n
            * s.controller.current_desc.matrix_k)
        % 2 ^ 64
unfolding Reads
run-mac_count s s' valid small fits e =
    let d = s.controller.current_desc in
    let n = s.controller.perf.mac_count in
    let all = subst (Reads (counted_all (plan_of d) n)) e (run-Reads s small) refl in
    let total : volume (plan_of d) ≡ d.matrix_m * d.matrix_n * d.matrix_k =
      volume-plan_of d (validate-IsPositive d valid) ∙ grind arith in
    all ∙ counted_all-volume (plan_of d) n fits ∙ ap (λ v. (n + v) % 2 ^ 64) total
