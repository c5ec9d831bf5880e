-- ===== src/Runtime/Driver/Fields.antt =====
-- `maps_npu_desc_init` and `maps_npu_desc_valid` on an object in DRAM.
use maps.Prelude.{
  ℕ, zero, suc, ◌+◌, ◌/◌, ◌<◌, ◌≤◌, ◌≡◌, ◌≢◌, ◌==◌, ◌||◌, ◌&&◌, not, refl, ap, ◌∙◌, sym, Bool, true,
  false, some, List, [], ◌∷◌, length, get_or, set, arith, length-set, leb, if◌then◌else◌,
  bit_and_three, Bool-cases, inl, inr,
}
use maps.Bus.{Bus, Store}
use maps.Npu.Config.{os, ws, is, other, Dataflow}
use maps.Npu.Descriptor.{
  Descriptor, to_words, dataflow_of, dataflow_word, validate, tile_fits, is_word_aligned,
}
use maps.Npu.Descriptor.Roundtrip.{put_all}
use maps.Runtime.Access.{M, pure, ◌>>=◌, ◌>>◌, after}
use maps.Runtime.Access.Dram.{with_words, IsObject, store32-object, load32-object}
use maps.Runtime.Driver.{
  desc_init, desc_valid, set_field, get_field, any_field, is_zero, is_unaligned, matrix_m, matrix_n,
  matrix_k, matrix_a_base, matrix_b_base, matrix_c_base, dataflow, tile_m, tile_n, tile_k,
  dataflow_is,
}

-- A mode that fits is one of the three.
mode_fits :
    (mode : Dataflow) (m n k : ℕ)
    → (leb (dataflow_word mode) 2 && tile_fits mode m n k) ≡ tile_fits mode m n k
unfolding dataflow_word tile_fits
mode_fits os m n k = refl
mode_fits ws m n k = refl
mode_fits is m n k = refl
mode_fits (other x) m n k = ground arith

abbrev any : (ℕ → Bool) → List ℕ → Bool
any test [] = false
any test (v ∷ vs) = test v || any test vs

module _ (base : ℕ) where
  -- The fields as the memory holds them.
  abbrev pub field_at : Store → ℕ → ℕ
  field_at s i = get_or s.memory.words (base / 4 + i) 0

  abbrev fields_at : Store → List ℕ → List ℕ
  fields_at s [] = []
  fields_at s (field ∷ fields) = field_at s field ∷ fields_at s fields

  -- The tests of `maps_npu_desc_valid`, on the fields.
  abbrev pub accepts : Store → Bool
  accepts s =
      not (any is_zero (fields_at s (matrix_m ∷ matrix_n ∷ matrix_k ∷ [])))
      && (not (any is_zero (fields_at s (matrix_a_base ∷ matrix_b_base ∷ matrix_c_base ∷ [])))
          && (not (
                any is_unaligned (fields_at s (matrix_a_base ∷ matrix_b_base ∷ matrix_c_base ∷ [])))
              && (not (any is_zero (fields_at s (tile_m ∷ tile_n ∷ tile_k ∷ [])))
                  && leb (field_at s dataflow) dataflow_is)))

mode_word : (w : ℕ) → dataflow_word (dataflow_of w) ≡ w
unfolding dataflow_word dataflow_of
mode_word zero = refl
mode_word (suc zero) = refl
mode_word (suc (suc zero)) = refl
mode_word (suc (suc (suc w))) = refl

module _ (base : ℕ) (s : Store) where
  -- The descriptor that the object holds.
  abbrev pub held : Descriptor
  held = record {
    matrix_m = field_at base s matrix_m;
    matrix_n = field_at base s matrix_n;
    matrix_k = field_at base s matrix_k;
    mode = dataflow_of (field_at base s dataflow);
    matrix_a_base = field_at base s matrix_a_base;
    matrix_b_base = field_at base s matrix_b_base;
    matrix_c_base = field_at base s matrix_c_base;
    tile_m = field_at base s tile_m;
    tile_n = field_at base s tile_n;
    tile_k = field_at base s tile_k;
  }

  held_words : (i : ℕ) → i < 10 → field_at base s i ≡ get_or (to_words held) i 0
  unfolding to_words
  held_words zero h = refl
  held_words (suc zero) h = refl
  held_words (suc (suc zero)) h = refl
  held_words (suc (suc (suc zero))) h = refl
  held_words (suc (suc (suc (suc zero)))) h = refl
  held_words (suc (suc (suc (suc (suc zero))))) h = refl
  held_words (suc (suc (suc (suc (suc (suc zero)))))) h = sym (mode_word (field_at base s 6))
  held_words (suc (suc (suc (suc (suc (suc (suc zero))))))) h = refl
  held_words (suc (suc (suc (suc (suc (suc (suc (suc zero)))))))) h = refl
  held_words (suc (suc (suc (suc (suc (suc (suc (suc (suc zero))))))))) h = refl
  held_words (suc (suc (suc (suc (suc (suc (suc (suc (suc (suc i)))))))))) h = absurd (omega arith)

module _ (bus : Bus) (base n : ℕ) (object : IsObject bus base n) (not_null : base ≢ 0) where
  -- The fields from `i` on, set in order.
  set_fields : ℕ → List ℕ → M (Unit {0})
  set_fields i [] = pure tt
  set_fields i (v ∷ []) = set_field bus base i v
  set_fields i (v ∷ w ∷ vs) = do set_field bus base i v; set_fields (i + 1) (w ∷ vs)

  set_fields-put_all :
      (s : Store) (i v : ℕ) (vs : List ℕ)
      → length s.memory.words ≡ n
      → i + length (v ∷ vs) ≤ 10
      → set_fields i (v ∷ vs) s
        ≡ some (with_words s (put_all s.memory.words (base / 4) i (v ∷ vs)), some tt)
  unfolding set_fields put_all set_field
  set_fields-put_all s i v [] same h = store32-object bus base n object s i v same (omega arith)
  set_fields-put_all s i v (w ∷ vs) same h =
      let s' = with_words s (set s.memory.words (base / 4 + i) v) in
      ap (after (λ _. set_fields (i + 1) (w ∷ vs)))
        (store32-object bus base n object s i v same (omega arith))
      ∙ set_fields-put_all s' (i + 1) w vs (length-set s.memory.words (base / 4 + i) v ∙ same)
          (omega arith)

  pub desc_init-put_all :
      (s : Store) (e : Descriptor)
      → length s.memory.words ≡ n
      → desc_init bus base e.matrix_a_base e.matrix_b_base e.matrix_c_base e.matrix_m e.matrix_n
          e.matrix_k
          (dataflow_word e.mode)
          e.tile_m
          e.tile_n
          e.tile_k
          s
        ≡ some (with_words s (put_all s.memory.words (base / 4) 0 (to_words e)), some tt)
  unfolding desc_init set_fields to_words
  desc_init-put_all s e same =
      let named : (base == 0) ≡ false = ground (arith, not_null) in
      rw named (set_fields-put_all s 0 e.matrix_m _ same (omega arith))

  abbrev AllFields : List ℕ → Type 0
  AllFields [] = Unit {0}
  AllFields (field ∷ fields) = (field < 10) × AllFields fields

  any_field-any :
      (test : ℕ → Bool) (s : Store) (fields : List ℕ)
      → length s.memory.words ≡ n
      → AllFields fields
      → any_field bus test base fields s ≡ some (s, some (any test (fields_at base s fields)))
  unfolding any_field get_field
  any_field-any test s [] same h = refl
  any_field-any test s (field ∷ fields) same (h, hs) =
      ap (after (λ v. if test v then pure true else any_field bus test base fields))
        (load32-object bus base n object s field same h)
      ∙ elim (Bool-cases (test (field_at base s field))) [
        | inl e ↦ rw e refl
        | inr e ↦ rw e (any_field-any test s fields same hs)
      ]

  -- One test: the rest runs where no field passes it.
  guard :
      (test : ℕ → Bool) (fields : List ℕ) (s : Store) (rest : M ℕ) (ok : Bool)
      → length s.memory.words ≡ n
      → AllFields fields
      → rest s ≡ some (s, some (if ok then 1 else 0))
      → (any_field bus test base fields >>= λ found. if found then pure 0 else rest) s
        ≡ some (s, some (if not (any test (fields_at base s fields)) && ok then 1 else 0))
  guard test fields s rest ok same h e =
      ap (after (λ found. if found then pure 0 else rest)) (any_field-any test s fields same h)
      ∙ elim (Bool-cases (any test (fields_at base s fields))) [
        | inl found ↦ rw found refl
        | inr clear ↦ rw clear e
      ]

  pub desc_valid-accepts :
      (s : Store)
      → length s.memory.words ≡ n
      → desc_valid bus base s ≡ some (s, some (if accepts base s then 1 else 0))
  unfolding desc_valid get_field
  desc_valid-accepts s same =
      let named : (base == 0) ≡ false = ground (arith, not_null) in
      rw named (
        guard is_zero _ s _ _ same (omega arith) (
          guard is_zero _ s _ _ same (omega arith) (
            guard is_unaligned _ s _ _ same (omega arith) (
              guard is_zero _ s _ _ same (omega arith) (
                ap (after (λ mode. pure (if leb mode dataflow_is then 1 else 0)))
                  (load32-object bus base n object s dataflow same (omega arith)))))))

  -- A descriptor in the object: the driver's tests and those of the device.
  pub accepts-validate :
      (s : Store) (e : Descriptor)
      → ((i : ℕ) → i < 10 → field_at base s i ≡ get_or (to_words e) i 0)
      → validate e ≡ (accepts base s && tile_fits e.mode e.tile_m e.tile_n e.tile_k)
  unfolding to_words validate is_word_aligned
  accepts-validate s e holds =
      let f0 = holds 0 (omega arith) in
      let f1 = holds 1 (omega arith) in
      let f2 = holds 2 (omega arith) in
      let f3 = holds 3 (omega arith) in
      let f4 = holds 4 (omega arith) in
      let f5 = holds 5 (omega arith) in
      let f6 = holds 6 (omega arith) in
      let f7 = holds 7 (omega arith) in
      let f8 = holds 8 (omega arith) in
      let f9 = holds 9 (omega arith) in
      let ea = bit_and_three e.matrix_a_base in
      let eb = bit_and_three e.matrix_b_base in
      let ec = bit_and_three e.matrix_c_base in
      rw (f0, f1, f2, f3, f4, f5, f6, f7, f8, f9)
        (ground (arith, ea, eb, ec, mode_fits e.mode e.tile_m e.tile_n e.tile_k))

  -- The driver's check against the device's: on the descriptor that the object holds,
  -- `maps_npu_desc_valid` reads the fields, changes nothing and returns 1 or 0, and
  -- `Descriptor::validate` accepts it exactly when the driver does and the tiles fit the array.
  pub desc_valid-validate :
      (s : Store)
      → length s.memory.words ≡ n
      → (ok : Bool) × (desc_valid bus base s ≡ some (s, some (if ok then 1 else 0)))
        × (validate (held base s) ≡ (
            ok
            && tile_fits
                (held base s).mode
                (held base s).tile_m
                (held base s).tile_n
                (held base s).tile_k))
  desc_valid-validate s same = (
    accepts base s,
    desc_valid-accepts s same,
    accepts-validate s (held base s) (held_words base s),
  )
