-- ===== src/Npu/Controller/Done.antt =====
-- The state after a run: DONE exactly where the run reports success.
use maps.Prelude.{
  ◌≡◌, refl, Bool, true, false, none, some, Option, List, [], ◌∷◌, is_null, Bool-cases, inl, inr,
}
use maps.Npu.Controller.{run, run_plan, scheduled, stop, tile_error, check_matrix_range}
use maps.Npu.Controller.Monad.{Npu}
use maps.Npu.Controller.Tile.{run_tile}
use maps.Npu.Descriptor.{validate}
use maps.Npu.Schedule.{GemmTile, build_plan}
use maps.Npu.Status.{NpuState, NpuError}

-- The state that goes with the result.
abbrev pub state_of : Bool → NpuState
state_of true = NpuState.done
state_of false = NpuState.error

abbrev pub Reports : Option (Npu × Bool) → Type 0
Reports none = Unit {0}
Reports (some (s, ok)) = s.controller.state ≡ state_of ok

run_plan-Reports : (plan : List GemmTile) (s : Npu) → Reports (some (run_plan plan s))
unfolding run_plan stop
run_plan-Reports [] s = refl
run_plan-Reports (tile ∷ rest) s =
    let s' = (run_tile tile s).0 in
    elim (run_tile tile s).1
      as (λ o. Reports (
        some (elim o [
          | some _ ↦ run_plan rest s'
          | none ↦ stop (tile_error s'.controller.error) s'
        ]))) [ some x ↦ run_plan-Reports rest s' | none ↦ refl ]

scheduled-Reports : (s : Npu) (plan : Option (List GemmTile × Bool)) → Reports (scheduled s plan)
unfolding scheduled stop
scheduled-Reports s none = tt
scheduled-Reports s (some (plan, false)) = refl
scheduled-Reports s (some (plan, true)) = run_plan-Reports plan _

abbrev started : Npu → Npu
started s = record s {
  controller = record (s.controller) { state = NpuState.busy; error = NpuError.no_error };
}

-- A run that ends leaves the state DONE where it reports success and ERROR where it does not.
pub run-Reports : (s : Npu) → Reports (run s)
unfolding run stop
run-Reports s = elim (Bool-cases (validate s.controller.current_desc)) [
  | inr e ↦ rw e refl
  | inl e ↦ rw e (elim (Bool-cases (check_matrix_range s.controller s.memory)) [
    | inr f ↦ rw f refl
    | inl f ↦ rw f (elim (Bool-cases (is_null s.controller.memory)) [
      | inl g ↦ rw g refl
      | inr g ↦ rw g (scheduled-Reports (started s) (build_plan s.controller.current_desc))
    ])
  ])
]
