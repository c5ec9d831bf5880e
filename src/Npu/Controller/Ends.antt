-- ===== src/Npu/Controller/Ends.antt =====
-- The runs of the controller end: `Controller::run` on a descriptor whose fields are below 2 ^ 31.
use maps.Prelude.{
  ◌≡◌, Bool, true, false, not, Option, none, some, List, Ends, ended, Ends-if, is_null, Bool-cases,
  inl, inr,
}
use maps.Npu.Controller.{run, scheduled, check_matrix_range, submit}
use maps.Npu.Controller.Monad.{Controller, Npu}
use maps.Npu.Descriptor.{Descriptor, validate}
use maps.Npu.Status.{NpuState, NpuError}
use maps.Npu.Schedule.{GemmTile, build_plan}
use maps.Npu.Schedule.Plan.{IsSmall, build_plan-plan_of}

scheduled-Ends :
    (s : Npu) (plan : Option (List GemmTile × Bool)) → Ends plan → Ends (scheduled s plan)
unfolding scheduled
scheduled-Ends s none (a, e) = cc
scheduled-Ends s (some (plan, false)) h = ended _
scheduled-Ends s (some (plan, true)) h = ended _

abbrev started : Npu → Npu
started s = record s {
  controller = record (s.controller) { state = NpuState.busy; error = NpuError.no_error };
}

pub run_small-Ends : (s : Npu) → IsSmall s.controller.current_desc → Ends (run s)
unfolding run
run_small-Ends s small = elim (Bool-cases (validate s.controller.current_desc)) [
  | inr e ↦ rw e (ended _)
  | inl e ↦ rw e (
      Ends-if (not (check_matrix_range s.controller s.memory)) _ _ (ended _) (
        Ends-if (is_null s.controller.memory) _ _ (ended _) (
          scheduled-Ends (started s) (build_plan s.controller.current_desc)
            (_, build_plan-plan_of s.controller.current_desc e small))))
]

pub submit-IsSmall :
    (desc : Descriptor) (c : Controller)
    → IsSmall desc
    → (submit desc c).1 ≡ true
    → IsSmall (submit desc c).0.current_desc
unfolding submit
submit-IsSmall desc c small accepted = elim (Bool-cases (validate desc)) [
  | inl e ↦ rw e small
  | inr e ↦ cc
]
