-- ===== src/Os/Console/Cstr.antt =====
-- Texts that end with a zero byte.
use maps.Prelude.{
  ℕ, zero, suc, ◌+◌, ◌<◌, ◌≡◌, ◌≢◌, ◌==◌, ◌^◌, ap, ◌∙◌, sym, Bool, true, false, some, none, Option,
  bound, u32, List, ◌∷◌, [], ◌++◌, length, arith, if◌then◌else◌,
}
use mathlib.Core.List.{append_assoc, append-nil}
use maps.Bus.{Bus, Store, read8}
use maps.Machine.{write_loop, push_back}
use maps.Os.Console.{load8, cstr_length, console_write, console_write_cstr}
use maps.Os.Console.Write.{console_write-write_loop, outcome}
use maps.Runtime.Access.{M, pure, after}

module _ (bus : Bus) (text : ℕ) where
  -- From byte `i` on the memory holds the characters and then a zero.
  abbrev pub HoldsText : Store → ℕ → List ℕ → Type 0
  HoldsText s i [] = read8 bus s (u32 (text + i)) ≡ some 0
  HoldsText s i (ch ∷ chs) =
      (read8 bus s (u32 (text + i)) ≡ some ch) × (ch ≢ 0) × HoldsText s (i + 1) chs

  -- One round of the loop.
  abbrev round : M ℕ → ℕ → ℕ → M ℕ
  round rest len ch = if ch == 0 then pure len else rest

  cstr_length-length :
      (fuel i : ℕ) (chs : List ℕ) (s : Store)
      → length chs < fuel
      → i + length chs < 2 ^ 32
      → HoldsText s i chs
      → cstr_length bus fuel text i s ≡ some (s, some (i + length chs))
  unfolding cstr_length load8
  cstr_length-length zero i chs s enough small h = absurd (omega arith)
  cstr_length-length (suc fuel) i [] s enough small h =
      let here : i ≡ i + 0 = omega arith in
      ap (λ v. after (round (cstr_length bus fuel text (u32 (i + 1))) i) (some (s, v))) h
      ∙ ap (λ n. some (s, some n)) here
  cstr_length-length (suc fuel) i (ch ∷ chs) s enough small (h, not_end, hs) =
      let next : u32 (i + 1) ≡ i + 1 = omega arith in
      let more : (ch == 0) ≡ false = ground (arith, not_end) in
      let whole : i + 1 + length chs ≡ i + length (ch ∷ chs) = omega arith in
      let rest = cstr_length bus fuel text (u32 (i + 1)) in
      ap (λ v. after (round rest i) (some (s, v))) h
      ∙ ap (λ b. (if b then pure i else rest) s) more
      ∙ ap (λ j. cstr_length bus fuel text j s) next
      ∙ cstr_length-length fuel (i + 1) chs s (omega arith) (omega arith) hs
      ∙ ap (λ n. some (s, some n)) whole

  -- The console text does not matter for what the memory holds.
  HoldsText-push_back :
      (s : Store) (i ch : ℕ) (chs : List ℕ) → HoldsText s i chs → HoldsText (push_back ch s) i chs
  unfolding read8
  HoldsText-push_back s i ch [] h = h
  HoldsText-push_back s i ch (x ∷ chs) (h, not_end, hs) =
      (h, not_end, HoldsText-push_back s (i + 1) ch chs hs)

  abbrev pub appended : List ℕ → Store → Store
  appended chs s = record s { console = s.console ++ chs }

  write_loop-appended :
      (i : ℕ) (chs : List ℕ) (s : Store)
      → HoldsText s i chs
      → write_loop bus text i (length chs) s ≡ (appended chs s, true)
  unfolding write_loop
  write_loop-appended i [] s h =
      ap (λ (l : List ℕ). (record s { console = l }, true)) (sym (append-nil s.console))
  write_loop-appended i (ch ∷ chs) s (h, not_end, hs) =
      ap (loop_next i (length chs) s) h
      ∙ write_loop-appended (i + 1) chs (push_back ch s) (HoldsText-push_back s (i + 1) ch chs hs)
      ∙ ap (λ (l : List ℕ). (record s { console = l }, true)) (append_assoc s.console (ch ∷ []) chs)
    where
      loop_next : ℕ → ℕ → Store → Option ℕ → Store × Bool
      loop_next i n s v = elim v [
        | none ↦ (s, false)
        | some ch ↦ write_loop bus text (i + 1) n (push_back ch s)
      ]

  -- `console_write_cstr` on a text at an address that is not null, which the memory holds with a zero
  -- after it and without one in it, and which is shorter than 2 ^ 32: it ends, appends exactly the text
  -- to the console, and changes nothing else.
  pub console_write_cstr-appended :
      (console_bound : bus.console_output ≡ bound) (chs : List ℕ) (s : Store)
      → text ≢ 0
      → length chs < 2 ^ 32
      → HoldsText s 0 chs
      → console_write_cstr bus text s ≡ some (appended chs s, some tt)
  unfolding console_write_cstr
  console_write_cstr-appended console_bound chs s not_null small h =
      let named : (text == 0) ≡ false = ground (arith, not_null) in
      let plus : 0 + length chs ≡ length chs = omega arith in
      rw named (
        ap (after (λ len. console_write bus text len))
          (cstr_length-length (2 ^ 32) 0 chs s small (omega (arith, small)) h)
        ∙ ap (λ len. console_write bus text len s) plus
        ∙ console_write-write_loop bus console_bound text (length chs) s not_null
        ∙ ap (outcome bus console_bound) (write_loop-appended 0 chs s h))
