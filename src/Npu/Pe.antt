-- ===== src/Npu/Pe.antt =====
-- `PE`, one processing element: src/maps-sim/src/npu/pe.cpp. INT32 sums and products that
-- overflow, which C++ leaves undefined, wrap here as they do in two's complement.
use maps.Prelude.{ℕ, ◌+◌, ◌*◌, ◌≡◌, ap, u32}
use maps.Npu.Config.{Dataflow, ws, os, is, other}

pub record Pe : Type 0 where
  pub input0 : ℕ
  pub input1 : ℕ
  pub output0 : ℕ
  pub output1 : ℕ
  pub weight_reg : ℕ
  pub input_reg : ℕ
  pub psum_reg : ℕ
  pub current_mode : Dataflow

abbrev pub make : Pe
make = record {
  input0 = 0;
  input1 = 0;
  output0 = 0;
  output1 = 0;
  weight_reg = 0;
  input_reg = 0;
  psum_reg = 0;
  current_mode = os;
}

-- The mode is kept.
abbrev pub reset : Pe → Pe
reset p = record p {
  input0 = 0;
  input1 = 0;
  output0 = 0;
  output1 = 0;
  weight_reg = 0;
  input_reg = 0;
  psum_reg = 0;
}

abbrev pub set_mode : Dataflow → Pe → Pe
set_mode mode p = record p { current_mode = mode }

abbrev pub load_weight : ℕ → Pe → Pe
load_weight weight p = record p { weight_reg = weight }

abbrev pub load_input : ℕ → Pe → Pe
load_input input p = record p { input_reg = input }

abbrev pub load_psum : ℕ → Pe → Pe
load_psum psum p = record p { psum_reg = psum }

abbrev pub set_inputs : ℕ → ℕ → Pe → Pe
set_inputs lhs rhs p = record p { input0 = lhs; input1 = rhs }

tick_mode : Dataflow → Pe → Pe
tick_mode os p = record p {
  psum_reg = u32 (p.psum_reg + u32 (p.input0 * p.input1));
  output0 = p.input0;
  output1 = p.input1;
}
tick_mode ws p =
    let psum = u32 (u32 (p.input0 * p.weight_reg) + p.input1) in
    record p { psum_reg = psum; output0 = p.input0; output1 = psum }
tick_mode is p =
    let psum = u32 (p.input0 + u32 (p.input_reg * p.input1)) in
    record p { psum_reg = psum; output0 = psum; output1 = p.input1 }
tick_mode (other _) p = p

unfoldable pub tick : Pe → Pe
unfolding tick_mode
tick p = tick_mode p.current_mode p

pub tick-os :
    (p : Pe)
    → p.current_mode ≡ os
    → tick p ≡ record p {
      psum_reg = u32 (p.psum_reg + u32 (p.input0 * p.input1));
      output0 = p.input0;
      output1 = p.input1;
    }
unfolding tick
tick-os p e = ap (λ m. tick_mode m p) e

pub tick-ws :
    (p : Pe)
    → p.current_mode ≡ ws
    → tick p ≡ record p {
      psum_reg = u32 (u32 (p.input0 * p.weight_reg) + p.input1);
      output0 = p.input0;
      output1 = u32 (u32 (p.input0 * p.weight_reg) + p.input1);
    }
unfolding tick
tick-ws p e = ap (λ m. tick_mode m p) e

pub tick-is :
    (p : Pe)
    → p.current_mode ≡ is
    → tick p ≡ record p {
      psum_reg = u32 (p.input0 + u32 (p.input_reg * p.input1));
      output0 = u32 (p.input0 + u32 (p.input_reg * p.input1));
      output1 = p.input1;
    }
unfolding tick
tick-is p e = ap (λ m. tick_mode m p) e
