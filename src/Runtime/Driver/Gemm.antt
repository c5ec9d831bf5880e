-- ===== src/Runtime/Driver/Gemm.antt =====
-- `maps_npu_gemm` as a whole: from the call in C to the words of DRAM.
use maps.Prelude.{
  ℕ, ◌+◌, ◌/◌, ◌%◌, ◌<◌, ◌≡◌, ◌≢◌, ◌==◌, ◌^◌, refl, ap, ◌∙◌, sym, subst, true, some, List, length,
  get_or, arith, bound, if◌then◌else◌,
}
use maps.Bus.{Bus, Store}
use maps.Npu.Array.Dot.{sum_products_congr}
use maps.Npu.Config.{os}
use maps.Npu.Controller.Gemm.Correct.{InC}
use maps.Npu.Controller.Gemm.Range.{IsInMemory}
use maps.Npu.Controller.Gemm.Region.{HasProduct, IsApart, product_at}
use maps.Npu.Controller.Gemm.Sum.{IsBuffered}
use maps.Npu.Controller.Tile.Layout.{a_place, b_place, c_place}
use maps.Npu.Descriptor
use maps.Npu.Descriptor.{Descriptor, to_words, validate, word_addr, is_word_aligned, dataflow_word}
use maps.Npu.Descriptor.Roundtrip.{
  put_all, put_all_at, put_all_outside, length-put_all, load-stored_at, IsNonNegative,
}
use maps.Npu.Device.Gemm.{IsReadyDevice, start-IsProduct}
use maps.Npu.Status.{NpuState}
use maps.Runtime.Access.{M, pure, after, ◌>>=◌, ◌>>◌}
use maps.Runtime.Access.Dram.{IsObject, with_words}
use maps.Runtime.Driver.{desc_valid, start, wait_done, gemm, minus}
use maps.Runtime.Driver.Fields.{
  desc_init-put_all, desc_valid-accepts, accepts, accepts-validate, field_at,
}
use maps.Runtime.Driver.Registers.{start-ran, wait_done-answer, answer, ran}

-- The descriptor that the driver writes.
abbrev pub request : (a_base b_base c_base m n k : ℕ) → Descriptor
request a_base b_base c_base m n k = record {
  matrix_m = m;
  matrix_n = n;
  matrix_k = k;
  mode = os;
  matrix_a_base = a_base;
  matrix_b_base = b_base;
  matrix_c_base = c_base;
  tile_m = 16;
  tile_n = 16;
  tile_k = 16;
}

-- The object at `base` has no word of A or B.
pub record IsClear (d : Descriptor) (base : ℕ) : Type 0 where
  pub a_clear :
      (i k f : ℕ) → i < d.matrix_m → k < d.matrix_k → f < 10 → a_place d i k ≢ base / 4 + f
  pub b_clear :
      (k j f : ℕ) → k < d.matrix_k → j < d.matrix_n → f < 10 → b_place d k j ≢ base / 4 + f

-- The product in C, and every word that is neither in C nor in the object as before.
pub record HasResult (d : Descriptor) (base : ℕ) (words words' : List ℕ) : Type 0 where
  pub same_size : length words' ≡ length words
  pub inside : (i j : ℕ) → InC d i j → get_or words' (c_place d i j) 0 ≡ product_at d words i j
  pub outside :
      (x : ℕ)
      → ((i j : ℕ) → InC d i j → x ≢ c_place d i j)
      → ((f : ℕ) → f < 10 → x ≢ base / 4 + f)
      → get_or words' x 0 ≡ get_or words x 0

zero_plus : (i : ℕ) → 0 + i ≡ i
zero_plus i = omega arith

-- The words with the descriptor in place.
abbrev pub written : Store → ℕ → Descriptor → List ℕ
written s base d = put_all s.memory.words (base / 4) 0 (to_words d)

module _ (bus : Bus) (s : Store) (base : ℕ) (d : Descriptor)
    (object : IsObject bus base (length s.memory.words)) (not_null : base ≢ 0)
    (valid : validate d ≡ true) (fit : IsNonNegative (to_words d)) (clear : IsClear d base) where
  written-same : length (written s base d) ≡ length s.memory.words
  written-same = length-put_all s.memory.words (base / 4) 0 (to_words d)

  loads :
      Descriptor.load_from_memory (record { words = written s base d }) base Descriptor.make
      ≡ (d, true)
  unfolding word_addr is_word_aligned
  loads =
      load-stored_at d s.memory base valid fit (ground (arith, object.aligned))
        (omega (arith, object.in_memory)) (omega (arith, object.memory_small)) Descriptor.make

  accepted :
      desc_valid bus base (with_words s (written s base d))
      ≡ some (with_words s (written s base d), some 1)
  unfolding to_words
  accepted =
      let s1 = with_words s (written s base d) in
      let holds : (i : ℕ) → i < 10 → field_at base s1 i ≡ get_or (to_words d) i 0 = λ i h.
        subst (λ x. get_or (written s base d) (base / 4 + x) 0 ≡ get_or (to_words d) i 0)
          (zero_plus i)
          (put_all_at s.memory.words (base / 4) 0 i (to_words d) h
            (omega (arith, object.in_memory))) in
      let e = accepts-validate bus base (length s.memory.words) object not_null s1 d holds in
      let passes : accepts base s1 ≡ true = ground (arith, e, valid) in
      desc_valid-accepts bus base (length s.memory.words) object not_null s1 written-same
      ∙ ap (λ b. some (s1, some (if b then 1 else 0))) passes

  same_outside :
      (x : ℕ)
      → ((f : ℕ) → f < 10 → x ≢ base / 4 + f)
      → get_or (written s base d) x 0 ≡ get_or s.memory.words x 0
  unfolding to_words
  same_outside x out = put_all_outside s.memory.words (base / 4) 0 x (to_words d) (λ f p q. out f q)

  same_product :
      (i j : ℕ) → InC d i j → product_at d (written s base d) i j ≡ product_at d s.memory.words i j
  same_product i j (hi, hj) =
      ap (λ n. (0 + n) % 2 ^ 32)
        (sum_products_congr _ _ _ _ d.matrix_k
          (λ k hk. same_outside (a_place d i k) (λ f hf. clear.a_clear i k f hi hk hf))
          (λ k hk. same_outside (b_place d k j) (λ f hf. clear.b_clear k j f hk hj hf)))

  ready_written :
      IsReadyDevice s.npu s.memory
      → IsReadyDevice (record (s.npu) { desc_addr = base }) (record { words = written s base d })
  ready_written h =
      let ready = h.ready in
      let same = written-same in
      record {
        device_bound = h.device_bound;
        controller_bound = h.controller_bound;
        ready = record {
          not_busy = ready.not_busy;
          memory_bound = ready.memory_bound;
          size_known = ready.size_known ∙ sym same;
          memory_small = omega (arith, ready.memory_small, same);
          input_size = ready.input_size;
          weight_size = ready.weight_size;
          output_size = ready.output_size;
        };
      }

  HasProduct-HasResult :
      (words' : List ℕ)
      → HasProduct d (written s base d) (InC d) (written s base d) words'
      → HasResult d base s.memory.words words'
  HasProduct-HasResult words' has = record {
    same_size = has.same_size ∙ written-same;
    inside = λ i j r. has.inside i j r ∙ same_product i j r;
    outside = λ x out out'. has.outside x out ∙ same_outside x out';
  }

  -- The start command, with the descriptor in place.
  pub start-HasResult :
      (npu_bound : bus.npu ≡ bound)
      → IsReadyDevice s.npu s.memory
      → IsInMemory d (length s.memory.words)
      → IsBuffered d
      → IsApart d s.memory.words
      → (s' : Store) × (start bus base (with_words s (written s base d)) ≡ some (s', some tt))
        × (s'.npu.controller.state ≡ NpuState.done)
        × HasResult d base s.memory.words s'.memory.words
        × (s'.console ≡ s.console)
  start-HasResult npu_bound device inside buffered apart =
      let s1 = with_words s (written s base d) in
      let (r, runs, ok, finished, has) =
        start-IsProduct (record (s.npu) { desc_addr = base }) s1.memory d (ready_written device)
          loads
          (record {
            in_memory = subst (IsInMemory d) (sym written-same) inside;
            buffered = buffered;
            apart = record { a_apart = apart.a_apart; b_apart = apart.b_apart };
          }) in
      (
        ran bus npu_bound s1 r,
        start-ran bus npu_bound s1 base r runs ok,
        finished,
        HasProduct-HasResult r.memory.words has,
        refl,
      )

-- What follows the driver's check.
abbrev pub checked : M ℕ → ℕ → M ℕ
checked begin valid = if valid == 0 then pure (minus 3) else begin

-- The console is kept too.
pub gemm-done :
    (bus : Bus) (s : Store) (base a b c m n k : ℕ)
    → IsObject bus base (length s.memory.words)
    → base ≢ 0
    → bus.npu ≡ bound
    → IsReadyDevice s.npu s.memory
    → validate (request a b c m n k) ≡ true
    → IsNonNegative (to_words (request a b c m n k))
    → IsInMemory (request a b c m n k) (length s.memory.words)
    → IsApart (request a b c m n k) s.memory.words
    → IsClear (request a b c m n k) base
    → (s' : Store) × (gemm bus base base a b c m n k s ≡ some (s', some 0))
      × HasResult (request a b c m n k) base s.memory.words s'.memory.words
      × (s'.console ≡ s.console)
unfolding gemm dataflow_word
gemm-done bus s base a b c m n k object not_null npu_bound device valid fit inside apart clear =
    let d = request a b c m n k in
    let s1 = with_words s (written s base d) in
    let (s2, started, finished, has, console) =
      start-HasResult bus s base d object not_null valid fit clear npu_bound device inside
        (omega arith) apart in
    let polls = wait_done bus 1000000 in
    let begin : M ℕ = start bus base >> polls in
    (
      s2,
      ap (after (λ _. desc_valid bus base >>= checked begin))
            (desc_init-put_all bus base (length s.memory.words) object not_null s d refl)
          ∙ ap (after (checked begin)) (accepted bus s base d object not_null valid fit clear)
          ∙ ap (after (λ _. polls)) started
          ∙ wait_done-answer bus npu_bound 1000000 s2 (omega arith)
          ∙ ap (λ state. some (s2, some (answer bus npu_bound state))) finished,
      has,
      console,
    )

-- `maps_npu_gemm` on a machine that is ready, with an aligned descriptor object in DRAM that shares no
-- word with A and B, dimensions and addresses that make a valid descriptor of words below 2 ^ 31, the
-- matrices in DRAM and C apart from A and B: it returns 0, C is then the product of A and B modulo
-- 2 ^ 32, element by element, and every other word of DRAM is as before, those of the object excepted.
pub gemm-HasResult :
    (bus : Bus) (s : Store) (base a b c m n k : ℕ)
    → IsObject bus base (length s.memory.words)
    → base ≢ 0
    → bus.npu ≡ bound
    → IsReadyDevice s.npu s.memory
    → validate (request a b c m n k) ≡ true
    → IsNonNegative (to_words (request a b c m n k))
    → IsInMemory (request a b c m n k) (length s.memory.words)
    → IsApart (request a b c m n k) s.memory.words
    → IsClear (request a b c m n k) base
    → (s' : Store) × (gemm bus base base a b c m n k s ≡ some (s', some 0))
      × HasResult (request a b c m n k) base s.memory.words s'.memory.words
gemm-HasResult bus s base a b c m n k object not_null npu_bound device valid fit inside apart
      clear =
    let (s', done, has, console) =
      gemm-done bus s base a b c m n k object not_null npu_bound device valid fit inside apart
        clear in
    (s', done, has)
