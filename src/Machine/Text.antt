-- ===== src/Machine/Text.antt =====
-- The loop of the write call: the bytes that it finds in memory go to the console.
use maps.Prelude.{
  ℕ, zero, suc, ◌≡◌, ◌∙◌, ap, refl, sym, subst, Bool, true, false, none, some, List, [], ◌∷◌, ◌++◌,
  Option-cases, inl, inr, ◌+◌, ◌<◌, u32, arith, length,
}
use maps.Bus
use maps.Bus.{Bus, Store}
use maps.Machine.{write_loop, push_back}

-- The bytes in memory at `addr` on, each read through the bus.
abbrev pub IsText : Bus → Store → ℕ → List ℕ → Type 0
IsText b s addr [] = Unit {0}
IsText b s addr (ch ∷ text) = (Bus.read8 b s (u32 addr) ≡ some ch) × IsText b s (addr + 1) text

-- The loop of the write call.
pub data Written (b : Bus) (addr n : ℕ) (s : Store) : Store × Bool → Type 0 where
  complete :
      (text : List ℕ)
      → length text ≡ n
      → IsText b s addr text
      → Written b addr n s (record s { console = s.console ++ text }, true)
  stopped :
      (text : List ℕ)
      → length text < n
      → IsText b s addr text
      → Bus.read8 b s (u32 (addr + length text)) ≡ none
      → Written b addr n s (record s { console = s.console ++ text }, false)

append_one : (xs : List ℕ) (x : ℕ) (ys : List ℕ) → (xs ++ (x ∷ [])) ++ ys ≡ xs ++ (x ∷ ys)
append_one [] x ys = refl
append_one (z ∷ xs) x ys = ap (λ l. z ∷ l) (append_one xs x ys)

pub append_nil : (xs : List ℕ) → xs ++ [] ≡ xs
append_nil [] = refl
append_nil (z ∷ xs) = ap (λ l. z ∷ l) (append_nil xs)

-- The console is not read.
IsText-console :
    (b : Bus) (s : Store) (console : List ℕ) (addr : ℕ) (text : List ℕ)
    → IsText b (record s { console = console }) addr text
    → IsText b s addr text
unfolding Bus.read8
IsText-console b s console addr [] h = tt
IsText-console b s console addr (ch ∷ text) (h, t) =
    (h, IsText-console b s console (addr + 1) text t)

module _ (b : Bus) (s : Store) (addr n ch : ℕ) (read : Bus.read8 b s (u32 addr) ≡ some ch) where
  Written-suc :
      (r : Store × Bool) → Written b (addr + 1) n (push_back ch s) r → Written b addr (suc n) s r
  unfolding Bus.read8
  Written-suc r (complete text l t) =
      subst (λ c. Written b addr (suc n) s (record s { console = c }, true))
        (sym (append_one s.console ch text))
        (complete (ch ∷ text) (ap suc l)
          (read, IsText-console b s (s.console ++ (ch ∷ [])) (addr + 1) text t))
  Written-suc r (stopped text l t end) =
      let at : addr + 1 + length text ≡ addr + suc (length text) = omega arith in
      subst (λ c. Written b addr (suc n) s (record s { console = c }, false))
        (sym (append_one s.console ch text))
        (stopped (ch ∷ text) (omega (arith, l))
          (read, IsText-console b s (s.console ++ (ch ∷ [])) (addr + 1) text t)
          (subst (λ a. Bus.read8 b s (u32 a) ≡ none) at end))

pub write_loop-Written :
    (b : Bus) (arg0 i n : ℕ) (s : Store) → Written b (arg0 + i) n s (write_loop b arg0 i n s)
unfolding write_loop
write_loop-Written b arg0 i zero s =
    subst (λ c. Written b (arg0 + i) 0 s (record s { console = c }, true)) (append_nil s.console)
      (complete [] refl tt)
write_loop-Written b arg0 i (suc n) s = elim (Option-cases (Bus.read8 b s (u32 (arg0 + i)))) [
  | inl e ↦
      rw (e, write_loop)
        (subst (λ c. Written b (arg0 + i) (suc n) s (record s { console = c }, false))
          (append_nil s.console)
          (stopped [] (omega arith) tt (ap (λ a. Bus.read8 b s (u32 a)) (omega arith) ∙ e)))
  | inr (ch, e) ↦
      let at : arg0 + (i + 1) ≡ arg0 + i + 1 = omega arith in
      rw (e, write_loop)
        (Written-suc b s (arg0 + i) n ch e _ (
          subst (λ a. Written b a n (push_back ch s) (write_loop b arg0 (i + 1) n (push_back ch s)))
            at (write_loop-Written b arg0 (i + 1) n (push_back ch s))))
]

-- The loop on a text in memory.
pub write_loop-text :
    (b : Bus) (arg0 i : ℕ) (s : Store) (text : List ℕ)
    → IsText b s (arg0 + i) text
    → write_loop b arg0 i (length text) s ≡ (record s { console = s.console ++ text }, true)
unfolding write_loop
write_loop-text b arg0 i s [] t =
    ap (λ c. (record s { console = c }, true)) (sym (append_nil s.console))
write_loop-text b arg0 i s (ch ∷ text) (h, t) =
    let at : arg0 + i + 1 ≡ arg0 + (i + 1) = omega arith in
    let next = push_back ch s in
    let rest = IsText-console b next s.console (arg0 + i + 1) text t in
    rw (h, write_loop)
      (write_loop-text b arg0 (i + 1) next text (subst (λ a. IsText b next a text) at rest)
        ∙ ap (λ c. (record s { console = c }, true)) (append_one s.console ch text))
