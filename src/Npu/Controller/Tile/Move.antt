-- ===== src/Npu/Controller/Tile/Move.antt =====
-- A transfer of the controller whose words are in range: what `moved` leaves behind.
use maps.Prelude.{
  ◌≤◌, ◌≡◌, ◌^◌, refl, ap, ap₂, ◌∙◌, sym, true, false, none, some, length, is_null, arith, subst,
}
use maps.Memory.{Memory}
use maps.Npu.Buffer.{Buffer}
use maps.Npu.Config.{buffer_sizes}
use maps.Npu.Controller.Monad.{Npu, M, ◌>>=◌, check, transfer, transfer_on, buffer_at, set_buffer}
use maps.Npu.Controller.Tile.{moved}
use maps.Npu.Descriptor.{word_addr}
use maps.Npu.Dma.{
  DmaRequest, DmaEngine, BufferId, Transfer, RunResult, dram_to_buffer, buffer_to_dram, is_busy,
  run_sync,
}
use maps.Npu.Dma.Block.{put_rows}
use maps.Npu.Dma.Moves.{IsFormed, submit-holding, load_puts, store_puts, holding, completed}
use maps.Npu.Dma.Run.{dram_block}
use maps.Npu.Dma.Store.{buffer_block}
use maps.Npu.Dma.Submit.{IsWords, IsReady, IsSmall, StaysInRange, IsKnown}
use maps.Npu.Status.{buffer_fail}

-- One step of a `do` block that succeeds.
pub bind_ok :
    {A B : Type 0} (m : M A) (f : A → M B) (s : Npu) {s' : Npu} {a : A}
    → m s ≡ (s', some a)
    → (m >>= f) s ≡ f a s'
bind_ok m f s e = ap (λ r. elim r.1 [ none ↦ (r.0, none) | some x ↦ f x r.0 ]) e

-- A controller between two transfers: the engine is free and bound to the memory, and the three
-- buffers of a tile have the size of src/maps-sim/include/common/config.h.
pub record IsReadyNpu (s : Npu) : Type 0 where
  pub not_busy : is_busy s.controller.dma.state ≡ false
  pub memory_bound : is_null s.controller.dma.memory ≡ false
  pub size_known : s.controller.dma.dram_size ≡ length s.memory.words
  pub memory_small : length s.memory.words ≤ 2 ^ 30
  pub input_size : length s.controller.input_buffer.words ≡ buffer_sizes
  pub weight_size : length s.controller.weight_buffer.words ≡ buffer_sizes
  pub output_size : length s.controller.output_buffer.words ≡ buffer_sizes

-- The controller and the memory after a transfer.
abbrev pub moved_to : BufferId → Npu → Buffer → DmaEngine → Memory → Npu
moved_to id s b e m = record {
  controller = set_buffer id b (record (s.controller) { dma = e });
  memory = m;
}

module _ (id : BufferId) (req : DmaRequest) (s : Npu) (ready : IsReadyNpu s)
    (bound_to : s.controller.dma.buffer ≡ some id)
    (size : length (buffer_at id s.controller).words ≡ buffer_sizes) (w : IsWords req)
    (formed : IsFormed req) where
  abbrev both : Transfer
  both = record { memory = s.memory; buffer = buffer_at id s.controller }

  abbrev outcome : RunResult
  outcome = run_sync both (holding req s.controller.dma)

  both-IsSmall : IsSmall both
  both-IsSmall = omega (arith, size, ready.memory_small)

  engine-IsReady : IsReady s.controller.dma s.memory
  engine-IsReady = record {
    not_busy = ready.not_busy;
    buffer_bound = rw bound_to refl;
    memory_bound = ready.memory_bound;
    size_known = ready.size_known;
  }

  moved-outcome :
      IsKnown req.direction
      → StaysInRange req.direction req both
      → outcome.done ≡ true
      → moved req s
        ≡ (moved_to id s outcome.transfer.buffer outcome.engine outcome.transfer.memory, some tt)
  unfolding moved transfer transfer_on
  moved-outcome known range done =
      let accepted =
        submit-holding req s.controller.dma both w engine-IsReady both-IsSmall formed known range in
      let transferred : transfer_on (some id) req s ≡ (
        moved_to id s outcome.transfer.buffer outcome.engine outcome.transfer.memory,
        some true,
      ) =
        rw (accepted, transfer_on) (rw (accepted, done) refl) in
      bind_ok (transfer req) (λ ok. check ok buffer_fail) s
        (ap (λ b. transfer_on b req s) bound_to ∙ transferred)

  -- A read of DRAM fills the buffer and keeps the memory.
  pub moved-load :
      (direction : req.direction ≡ dram_to_buffer)
      → StaysInRange dram_to_buffer req both
      → (b : Buffer) × (moved req s
          ≡ (moved_to id s b (completed req s.controller.dma) s.memory, some tt))
        × (b.words
            ≡ put_rows req.buffer_base req.dst_stride
                (dram_block req s.memory.words)
                req.length
                0
                req.rows
                (buffer_at id s.controller).words)
  moved-load direction range =
      let (done, engine, memory, words) =
        load_puts req s.controller.dma both both-IsSmall direction range in
      let known = subst IsKnown (sym direction) tt in
      let range' = subst (λ dir. StaysInRange dir req both) (sym direction) range in
      (
        outcome.transfer.buffer,
        moved-outcome known range' done
            ∙ ap₂ (λ e m. (moved_to id s outcome.transfer.buffer e m, some tt)) engine memory,
        words,
      )

  -- A write of DRAM keeps the words of the buffer and fills the memory.
  pub moved-store :
      (direction : req.direction ≡ buffer_to_dram)
      → StaysInRange buffer_to_dram req both
      → (b : Buffer) × (m : Memory) × (moved req s
          ≡ (moved_to id s b (completed req s.controller.dma) m, some tt))
        × (b.words ≡ (buffer_at id s.controller).words)
        × (m.words
            ≡ put_rows
                (word_addr req.dram_base)
                req.dst_stride
                (buffer_block req (buffer_at id s.controller).words)
                req.length
                0
                req.rows
                s.memory.words)
  moved-store direction range =
      let (done, engine, kept, words) =
        store_puts req s.controller.dma both both-IsSmall direction range in
      let known = subst IsKnown (sym direction) tt in
      let range' = subst (λ dir. StaysInRange dir req both) (sym direction) range in
      (
        outcome.transfer.buffer,
        outcome.transfer.memory,
        moved-outcome known range' done
            ∙ ap (λ e. (moved_to id s outcome.transfer.buffer e outcome.transfer.memory, some tt))
                engine,
        kept,
        words,
      )
