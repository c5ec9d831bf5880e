-- ===== src/Npu/Controller/Tile/Error.antt =====
-- The error code and the count of multiplications: a tile that succeeds leaves the first alone and
-- adds its volume to the second.
use maps.Prelude.{
  ℕ, ◌≡◌, refl, subst, Bool, true, false, not, Option, none, some, List, [], replicate, ◌==◌, u32,
  ◌*◌, ◌+◌, u64, Bool-cases, inl, inr,
}
use mathlib.Core.Option
use maps.Npu.Array.{run_gemm_tile}
use maps.Npu.Buffer
use maps.Npu.Controller.Monad.{
  Controller, Npu, M, pure, ◌>>=◌, ◌>>◌, bind_dma, check, modify, transfer_on, transfer, buffer_at,
  set_buffer,
}
use maps.Npu.Controller.Tile.{
  req_a, req_b, req_c_in, req_c_out, count_read, count_write, moved, dumped, reset_output,
  load_c_in, c_in_tile, compute, fill_output, exceeds, load_tiles, compute_tile, store_tile,
  run_tile,
}
use maps.Npu.Descriptor.{Descriptor}
use maps.Npu.Dma
use maps.Npu.Dma.{DmaRequest, BufferId, weight, input, output, host}
use maps.Npu.Schedule.{GemmTile}
use maps.Npu.Status.{NpuError}

-- A success with the error code `e` and the count `n`.
abbrev pub Kept : {A : Type 0} → NpuError → ℕ → Npu × Option A → Type 0
Kept e n (s, none) = Unit {0}
Kept e n (s, some a) = (s.controller.error ≡ e) × (s.controller.perf.mac_count ≡ n)

-- A computation that keeps the code and makes `f` of the count, from any state.
abbrev pub Counts : {A : Type 0} → (ℕ → ℕ) → M A → Type 0
Counts f m = (s : Npu) → Kept s.controller.error (f s.controller.perf.mac_count) (m s)

abbrev same : ℕ → ℕ
same n = n

abbrev Keeps : {A : Type 0} → M A → Type 0
Keeps m = Counts same m

bind-Kept :
    {A B : Type 0} (g : ℕ → ℕ) (e : NpuError) (n : ℕ) (r : Npu × Option A) (f : A → M B)
    → Kept e n r
    → ((a : A) → Counts g (f a))
    → Kept {A = B} e
        (g n)
        (let (s', result) = r in elim result [ none ↦ (s', none) | some a ↦ f a s' ])
bind-Kept g e n (s', none) f h k = tt
bind-Kept g e n (s', some a) f (h, h') k =
    subst (λ x. Kept x (g n) (f a s')) h
      (subst (λ y. Kept s'.controller.error (g y) (f a s')) h' (k a s'))

check-Keeps : (b : Bool) (e : NpuError) → Keeps (check b e)
check-Keeps true e s = (refl, refl)
check-Keeps false e s = tt

set_buffer-kept :
    (id : BufferId) (b : Buffer.Buffer) (c : Controller)
    → ((set_buffer id b c).error ≡ c.error)
      × ((set_buffer id b c).perf.mac_count ≡ c.perf.mac_count)
set_buffer-kept weight b c = (refl, refl)
set_buffer-kept input b c = (refl, refl)
set_buffer-kept output b c = (refl, refl)
set_buffer-kept host b c = (refl, refl)

transfer_on-Keeps : (id : Option BufferId) (req : DmaRequest) → Keeps (transfer_on id req)
unfolding transfer_on
transfer_on-Keeps none req s = (refl, refl)
transfer_on-Keeps (some id) req s =
    let r = Dma.submit (buffer_at id s.controller) req s.controller.dma in
    elim (Bool-cases r.1) [
      | inl e ↦ rw (e, transfer_on) (set_buffer-kept id _ _)
      | inr e ↦ rw (e, transfer_on) (refl, refl)
    ]

moved-Keeps : (req : DmaRequest) → Keeps (moved req)
unfolding moved transfer
moved-Keeps req s =
    bind-Kept same s.controller.error s.controller.perf.mac_count (transfer req s)
      (λ ok. check ok NpuError.buffer_fail) (transfer_on-Keeps s.controller.dma.buffer req s)
      (λ ok. check-Keeps ok NpuError.buffer_fail)

-- A check in a state with the same code and count, and what follows it.
check_first :
    {A : Type 0} (g : ℕ → ℕ) (b : Bool) (e x : NpuError) (n : ℕ) (f : Unit {0} → M A) (s : Npu)
    → (s.controller.error ≡ x) × (s.controller.perf.mac_count ≡ n)
    → ((a : Unit {0}) → Counts g (f a))
    → Kept x (g n) ((check b e >>= f) s)
check_first g true e x n f s h k = bind-Kept g x n (s, some tt) f h k
check_first g false e x n f s h k = tt

dumped-Keeps : (id : BufferId) (len : ℕ) → Keeps (dumped id len)
unfolding dumped
dumped-Keeps id len s =
    let r = Buffer.dump (buffer_at id s.controller) (some (replicate len 0)) len in
    let (b, out, ok) = r in
    check_first same ok NpuError.buffer_fail s.controller.error s.controller.perf.mac_count
      (λ _. pure (Option.get_or out [])) (record s { controller = set_buffer id b s.controller })
      (set_buffer-kept id b s.controller) (λ _ s'. (refl, refl))

load_c_in-Keeps : (d : Descriptor) (tile : GemmTile) → Keeps (load_c_in d tile)
unfolding load_c_in
load_c_in-Keeps d tile s = elim (Bool-cases (tile.k0 == 0)) [
  | inl e ↦ rw (e, load_c_in) (refl, refl)
  | inr e ↦
      rw (e, load_c_in)
        (bind-Kept same s.controller.error s.controller.perf.mac_count (moved (req_c_in d tile) s)
          (λ _. count_read (tile.n_len * tile.m_len)) (moved-Keeps (req_c_in d tile) s)
          (λ _ s'. (refl, refl)))
]

c_in_tile-Keeps : (tile : GemmTile) → Keeps (c_in_tile tile)
unfolding c_in_tile
c_in_tile-Keeps tile s =
    let len = u32 (tile.m_len * tile.n_len) in
    elim (Bool-cases (tile.k0 == 0)) [
      | inl e ↦ rw (e, c_in_tile) (refl, refl)
      | inr e ↦
          rw (e, c_in_tile)
            (bind-Kept same s.controller.error s.controller.perf.mac_count (dumped output len s)
              (λ c_in. pure (some c_in)) (dumped-Keeps output len s) (λ _ s'. (refl, refl)))
    ]

-- A tile of multiplications more, on 64 bits.
abbrev pub counted : GemmTile → ℕ → ℕ
counted tile n = u64 (n + u64 (tile.m_len * tile.n_len * tile.k_len))

compute-Counts :
    (d : Descriptor) (tile : GemmTile) (a b : List ℕ) (c_in : Option (List ℕ))
    → Counts (counted tile) (compute d tile a b c_in)
unfolding compute
compute-Counts d tile a b c_in s =
    let r =
      run_gemm_tile d.mode (some a) (some b) c_in tile.m_len tile.n_len tile.k_len
        (some (replicate (u32 (tile.m_len * tile.n_len)) 0)) s.controller.array in
    let count : Unit {0} → M (Option (List ℕ)) = λ _.
      modify (λ c. record c {
        perf = record (c.perf) {
          cycle_count = u64 (c.perf.cycle_count + r.cycles);
          mac_count = u64 (c.perf.mac_count + u64 (tile.m_len * tile.n_len * tile.k_len));
        };
      })
      >> pure r.c_out in
    check_first (counted tile) r.done NpuError.buffer_fail s.controller.error
      s.controller.perf.mac_count count
      (record s { controller = record (s.controller) { array = r.array } }) (refl, refl)
      (λ _ s'. (refl, refl))

fill_output-Keeps : (c_out : Option (List ℕ)) (len : ℕ) → Keeps (fill_output c_out len)
unfolding fill_output
fill_output-Keeps c_out len s =
    let (b, ok) = Buffer.load (Buffer.reset s.controller.output_buffer) c_out len in
    check-Keeps ok NpuError.buffer_fail
      (record s { controller = record (s.controller) { output_buffer = b } })

module _ (d : Descriptor) (tile : GemmTile) where
  -- What follows the first and the second transfer of `load_tiles`.
  abbrev after_b : M (Unit {0})
  after_b =
      count_read (tile.n_len * tile.k_len)
      >> (reset_output >> (bind_dma output >> load_c_in d tile))

  abbrev after_a : M (Unit {0})
  after_a =
      count_read (tile.k_len * tile.m_len) >> (bind_dma weight >> (moved (req_b d tile) >> after_b))

  after_b-Keeps : Keeps after_b
  after_b-Keeps s = load_c_in-Keeps d tile _

  after_a-Keeps : Keeps after_a
  after_a-Keeps s =
      bind-Kept same s.controller.error s.controller.perf.mac_count (moved (req_b d tile) _)
        (λ _. after_b) (moved-Keeps (req_b d tile) _) (λ _. after_b-Keeps)

  load_tiles-Keeps : Keeps (load_tiles d tile)
  unfolding load_tiles
  load_tiles-Keeps s =
      bind-Kept same s.controller.error s.controller.perf.mac_count (moved (req_a d tile) _)
        (λ _. after_a) (moved-Keeps (req_a d tile) (bind_dma input s).0) (λ _. after_a-Keeps)

  abbrev computed : List ℕ → List ℕ → Option (List ℕ) → M (Unit {0})
  computed a b c_in =
      compute d tile a b c_in >>= λ c_out. fill_output c_out (u32 (tile.m_len * tile.n_len))

  abbrev with_b : List ℕ → List ℕ → M (Unit {0})
  with_b a b = c_in_tile tile >>= λ c_in. computed a b c_in

  abbrev with_a : List ℕ → M (Unit {0})
  with_a a = dumped weight (u32 (tile.k_len * tile.n_len)) >>= λ b. with_b a b

  compute_tile-Counts : Counts (counted tile) (compute_tile d tile)
  unfolding compute_tile
  compute_tile-Counts s =
      let len_a = u32 (tile.m_len * tile.k_len) in
      let len_b = u32 (tile.k_len * tile.n_len) in
      let len_c = u32 (tile.m_len * tile.n_len) in
      bind-Kept (counted tile) s.controller.error s.controller.perf.mac_count (dumped input len_a s)
        with_a (dumped-Keeps input len_a s)
        (λ a s1.
          bind-Kept (counted tile) s1.controller.error s1.controller.perf.mac_count
            (dumped weight len_b s1) (with_b a) (dumped-Keeps weight len_b s1)
            (λ b s2.
              bind-Kept (counted tile) s2.controller.error s2.controller.perf.mac_count
                (c_in_tile tile s2) (computed a b) (c_in_tile-Keeps tile s2)
                (λ c_in s3.
                  bind-Kept same s3.controller.error (counted tile s3.controller.perf.mac_count)
                    (compute d tile a b c_in s3) (λ c_out. fill_output c_out len_c)
                    (compute-Counts d tile a b c_in s3) (λ c_out. fill_output-Keeps c_out len_c))))

  store_tile-Keeps : Keeps (store_tile d tile)
  unfolding store_tile
  store_tile-Keeps s =
      bind-Kept same s.controller.error s.controller.perf.mac_count (moved (req_c_out d tile) s)
        (λ _. count_write (tile.n_len * tile.m_len)) (moved-Keeps (req_c_out d tile) s)
        (λ _ s'. (refl, refl))

-- A tile that succeeds keeps the error code and adds its volume to the count.
pub run_tile-Counts : (tile : GemmTile) → Counts (counted tile) (run_tile tile)
unfolding run_tile
run_tile-Counts tile s =
    let d = s.controller.current_desc in
    let last : M (Unit {0}) = compute_tile d tile >> store_tile d tile in
    bind-Kept (counted tile) s.controller.error s.controller.perf.mac_count
      (check (not (exceeds s.controller tile)) NpuError.out_of_range s)
      (λ _. load_tiles d tile >> last)
      (check-Keeps (not (exceeds s.controller tile)) NpuError.out_of_range s)
      (λ _ s1.
        bind-Kept (counted tile) s1.controller.error s1.controller.perf.mac_count
          (load_tiles d tile s1) (λ _. last) (load_tiles-Keeps d tile s1)
          (λ _ s2.
            bind-Kept same s2.controller.error (counted tile s2.controller.perf.mac_count)
              (compute_tile d tile s2) (λ _. store_tile d tile) (compute_tile-Counts d tile s2)
              (λ _. store_tile-Keeps d tile)))
