-- ===== src/Npu/Controller/Error.antt =====
-- The state and the error code of the controller go together.
use maps.Prelude.{
  ◌≡◌, ◌≢◌, ◌∙◌, refl, Bool, true, false, Option, none, some, List, [], ◌∷◌, Ptr, null, bound,
  is_null, Bool-cases, inl, inr,
}
use maps.Npu.Controller.{
  run, run_plan, scheduled, stop, tile_error, submit, make, reset, bind_memory, check_matrix_range,
}
use maps.Memory.{Memory}
use maps.Npu.Controller.Monad.{Controller, Npu}
use maps.Npu.Controller.Tile.{run_tile}
use maps.Npu.Controller.Tile.Error.{Kept, counted, run_tile-Counts}
use maps.Npu.Descriptor.{Descriptor, validate}
use maps.Npu.Schedule.{GemmTile, build_plan}
use maps.Npu.Status.{NpuState, NpuError, no_error, invalid_desc, out_of_range, buffer_fail}

-- Between two operations: never BUSY, and an error code in the state ERROR and only there.
unfoldable pub Fits : NpuState → NpuError → Type 0
Fits NpuState.idle e = e ≡ no_error
Fits NpuState.busy e = ⊥
Fits NpuState.done e = e ≡ no_error
Fits NpuState.error e = e ≢ no_error

-- A controller between two operations.
unfoldable pub IsSettled : Controller → Type 0
unfolding Fits
IsSettled c = Fits c.state c.error

-- What a run leaves.
abbrev pub Leaves : Option (Npu × Bool) → Type 0
Leaves none = Unit {0}
Leaves (some (s, ok)) = IsSettled s.controller

tile_error_ne : (e : NpuError) → tile_error e ≢ no_error
unfolding tile_error
tile_error_ne no_error h = cc
tile_error_ne invalid_desc h = cc
tile_error_ne out_of_range h = cc
tile_error_ne buffer_fail h = cc

run_plan-Leaves :
    (plan : List GemmTile) (s : Npu)
    → s.controller.error ≡ no_error
    → Leaves (some (run_plan plan s))
unfolding run_plan stop IsSettled Fits
run_plan-Leaves [] s h = h
run_plan-Leaves (tile ∷ rest) s h =
    let s' = (run_tile tile s).0 in
    elim (run_tile tile s).1
        as (λ o.
          Kept s.controller.error (counted tile s.controller.perf.mac_count) (s', o)
          → Leaves (
              some (elim o [
                | some _ ↦ run_plan rest s'
                | none ↦ stop (tile_error s'.controller.error) s'
              ]))) [
                | some x ↦ λ (kept, _). run_plan-Leaves rest s' (kept ∙ h)
                | none ↦ λ kept. tile_error_ne s'.controller.error
              ]
      (run_tile-Counts tile s)

scheduled-Leaves :
    (s : Npu) (plan : Option (List GemmTile × Bool))
    → s.controller.error ≡ no_error
    → Leaves (scheduled s plan)
unfolding scheduled stop IsSettled Fits
scheduled-Leaves s none h = tt
scheduled-Leaves s (some (plan, false)) h = λ e. cc
scheduled-Leaves s (some (plan, true)) h = run_plan-Leaves plan _ h

abbrev started : Npu → Npu
started s = record s {
  controller = record (s.controller) { state = NpuState.busy; error = NpuError.no_error };
}

pub run-Leaves : (s : Npu) → Leaves (run s)
unfolding run stop IsSettled Fits
run-Leaves s = elim (Bool-cases (validate s.controller.current_desc)) [
  | inr e ↦ rw e (λ h. cc)
  | inl e ↦ rw e (elim (Bool-cases (check_matrix_range s.controller s.memory)) [
    | inr f ↦ rw f (λ h. cc)
    | inl f ↦ rw f (elim (Bool-cases (is_null s.controller.memory)) [
      | inl g ↦ rw g (λ h. cc)
      | inr g ↦ rw g (scheduled-Leaves (started s) (build_plan s.controller.current_desc) refl)
    ])
  ])
]

pub submit-IsSettled : (d : Descriptor) (c : Controller) → IsSettled (submit d c).0
unfolding submit IsSettled Fits
submit-IsSettled d c = elim (Bool-cases (validate d)) [ inl e ↦ rw e refl | inr e ↦ rw e (λ h. cc) ]

pub bind_memory-IsSettled :
    (p : Ptr) (mem : Memory) (c : Controller) → IsSettled c → IsSettled (bind_memory p mem c)
unfolding bind_memory IsSettled
bind_memory-IsSettled null mem c h = h
bind_memory-IsSettled bound mem c h = h

pub made-IsSettled : IsSettled make
unfolding make IsSettled Fits
made-IsSettled = refl

pub reset-IsSettled : (mem : Memory) (c : Controller) → IsSettled (reset mem c)
unfolding reset IsSettled Fits
reset-IsSettled mem c = refl
