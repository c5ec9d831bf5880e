-- ===== src/Npu/Array/Accepts.antt =====
-- The tiles that `Array::run_gemm_tile` accepts, and what it does with the others.
use maps.Prelude.{
  ℕ, ◌+◌, ◌<◌, ◌≤◌, ◌≡◌, refl, sym, ◌∙◌, ◌&&◌, not, Bool, true, List, Option, some, none, arith,
  if◌then◌else◌, sub32, ◌↔◌,
}
use maps.Npu.Config.{Dataflow, os, ws, is, other}
use maps.Npu.Array.{
  Array, TileResult, run_gemm_tile, run_tile_mode, run_os_tile, run_ws_tile, run_is_tile, dims_fit,
  no_dims, cycles,
}

-- A tile that is not null.
abbrev pub IsGiven : Option (List ℕ) → Type 0
IsGiven none = ⊥
IsGiven (some _) = Unit {0}

-- What the 16 x 16 array can hold: the rows and the columns of the operand that stays in it.
abbrev pub IsHeld : Dataflow → ℕ → ℕ → ℕ → Type 0
IsHeld os m n k = (m ≤ 16) × (n ≤ 16)
IsHeld ws m n k = (k ≤ 16) × (n ≤ 16)
IsHeld is m n k = (m ≤ 16) × (k ≤ 16)
IsHeld (other _) m n k = ⊥

module _ (m_len n_len k_len : ℕ) where
  abbrev passes : Dataflow → Bool
  passes mode = not (no_dims m_len n_len k_len) && dims_fit mode m_len n_len k_len

  passes_iff :
      (mode : Dataflow)
      → (passes mode ≡ true) ↔ (0 < m_len × 0 < n_len × 0 < k_len × IsHeld mode m_len n_len k_len)
  unfolding dims_fit
  passes_iff os = ground arith
  passes_iff ws = ground arith
  passes_iff is = ground arith
  passes_iff (other x) = (λ e. ground (arith, e), λ (p, q, r, h). absurd h)

  module _ (mode : Dataflow) (a b c_out : List ℕ) (c_in : Option (List ℕ)) (g : Array) where
    abbrev given : TileResult
    given = run_gemm_tile mode (some a) (some b) c_in m_len n_len k_len (some c_out) g

    given_done :
        (given.done ≡ passes mode)
        × (given.array ≡ (if given.done then given.array else g))
        × (given.c_out ≡ (if given.done then given.c_out else some c_out))
        × (given.cycles ≡ (if given.done then sub32 (m_len + n_len + k_len) 2 else 0))
    unfolding run_gemm_tile run_tile_mode run_os_tile run_ws_tile run_is_tile dims_fit
    given_done = ground arith

-- `run_gemm_tile` returns true exactly when no tile but `c_in` is null, no dimension is 0 and the
-- operand that stays in the 16 x 16 array fits it: C in the mode OS, B in WS, A in IS, and no
-- operand in any other mode. It then reports the m + n + k - 2 cycles of the wavefront; where it
-- returns false, the array and `c_out` are as before and it reports 0 cycles.
pub run_gemm_tile_accepts :
    (mode : Dataflow) (a b c_in : Option (List ℕ)) (m_len n_len k_len : ℕ) (c_out : Option (List ℕ))
    (g : Array)
    → let r = run_gemm_tile mode a b c_in m_len n_len k_len c_out g in
      ((r.done ≡ true) ↔ (
        IsGiven a
        × IsGiven b
        × IsGiven c_out
        × 0 < m_len
        × 0 < n_len
        × 0 < k_len
        × IsHeld mode m_len n_len k_len))
      × (r.array ≡ (if r.done then r.array else g))
      × (r.c_out ≡ (if r.done then r.c_out else c_out))
      × (r.cycles ≡ (if r.done then sub32 (m_len + n_len + k_len) 2 else 0))
unfolding run_gemm_tile
run_gemm_tile_accepts mode none b c_in m n k c_out g =
    ((λ e. cc, λ h. absurd h.0), refl, refl, refl)
run_gemm_tile_accepts mode (some a) none c_in m n k c_out g =
    ((λ e. cc, λ h. absurd h.1), refl, refl, refl)
run_gemm_tile_accepts mode (some a) (some b) c_in m n k none g =
    ((λ e. cc, λ h. absurd h.2), refl, refl, refl)
run_gemm_tile_accepts mode (some a) (some b) c_in m n k (some c_out) g =
    let (done, array, out, cycles) = given_done m n k mode a b c_out c_in g in
    let (to, back) = passes_iff m n k mode in
    (
      (
        λ e. let (p, q, s, held) = to (sym done ∙ e) in (tt, tt, tt, p, q, s, held),
        λ (x, y, z, p, q, s, held). done ∙ back (p, q, s, held),
      ),
      array,
      out,
      cycles,
    )
