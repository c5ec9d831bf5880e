-- ===== src/Npu/Controller/Monad.antt =====
-- The controller's state, and the monad of its operations.
use maps.Prelude.{Bool, true, false, Option, none, some, List, Ptr}
use maps.Memory.{Memory}
use maps.Npu.Array.{Array}
use maps.Npu.Buffer.{Buffer}
use maps.Npu.Buffer
use maps.Npu.Descriptor.{Descriptor}
use maps.Npu.Dma.{DmaEngine, DmaRequest, BufferId, weight, input, output, host}
use maps.Npu.Dma
use maps.Npu.Schedule.{GemmTile}
use maps.Npu.Status.{NpuState, NpuError, PerfCounters}

-- `scheduler_` has no state.
pub record Controller : Type 0 where
  pub array : Array
  pub weight_buffer : Buffer
  pub input_buffer : Buffer
  pub output_buffer : Buffer
  pub host_buffer : Buffer
  pub dma : DmaEngine
  pub plan : List GemmTile
  pub memory : Ptr
  pub current_desc : Descriptor
  pub state : NpuState
  pub error : NpuError
  pub perf : PerfCounters

-- The controller, and the memory that its pointers lead to.
pub record Npu : Type 0 where
  pub controller : Controller
  pub memory : Memory

abbrev pub M : Type 0 → Type 0
M A = Npu → Npu × Option A

abbrev pub pure : {A : Type 0} → A → M A
pure a s = (s, some a)

infixl 5 ◌>>=◌ ◌>>◌
abbrev pub ◌>>=◌ : {A B : Type 0} → M A → (A → M B) → M B
◌>>=◌ m f s = let (s', result) = m s in elim result [ none ↦ (s', none) | some a ↦ f a s' ]

abbrev pub ◌>>◌ : {B : Type 0} → M (Unit {0}) → M B → M B
m >> k = m >>= λ _. k

abbrev pub modify : (Controller → Controller) → M (Unit {0})
modify f s = (record s { controller = f s.controller }, some tt)

-- `error_ = e; return false;` where the test fails.
abbrev pub check : Bool → NpuError → M (Unit {0})
check true e s = (s, some tt)
check false e s = (record s { controller = record (s.controller) { error = e } }, none)

-- The buffer that a pointer leads to.
abbrev pub buffer_at : BufferId → Controller → Buffer
buffer_at weight c = c.weight_buffer
buffer_at input c = c.input_buffer
buffer_at output c = c.output_buffer
buffer_at host c = c.host_buffer

abbrev pub set_buffer : BufferId → Buffer → Controller → Controller
set_buffer weight b c = record c { weight_buffer = b }
set_buffer input b c = record c { input_buffer = b }
set_buffer output b c = record c { output_buffer = b }
set_buffer host b c = record c { host_buffer = b }

-- `dma_.bind_buffer(&...)`.
abbrev pub bind_dma : BufferId → M (Unit {0})
bind_dma id = modify λ c. record c { dma = Dma.bind_buffer (some id) c.dma }

-- `dma_.submit(req) && dma_.run_sync()` on the buffer that the engine is bound to. An engine that
-- is bound to none refuses the request, whatever buffer it is handed.
unfoldable pub transfer_on : Option BufferId → DmaRequest → M Bool
transfer_on none req s =
    let (engine, _) = Dma.submit (Buffer.make 0) req s.controller.dma in
    (record s { controller = record (s.controller) { dma = engine } }, some false)
transfer_on (some id) req s =
    let (engine, accepted) = Dma.submit (buffer_at id s.controller) req s.controller.dma in
    elim accepted [
      | false ↦ (record s { controller = record (s.controller) { dma = engine } }, some false)
      | true ↦
          let r =
            Dma.run_sync (record { memory = s.memory; buffer = buffer_at id s.controller })
              engine in
          (
            record {
              controller =
                  set_buffer id r.transfer.buffer (record (s.controller) { dma = r.engine });
              memory = r.transfer.memory;
            },
            some r.done,
          )
    ]

unfoldable pub transfer : DmaRequest → M Bool
unfolding transfer_on
transfer req s = transfer_on s.controller.dma.buffer req s
