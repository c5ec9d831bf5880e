-- ===== src/Runtime/Access.antt =====
-- Loads and stores of a C program on the machine: each goes to the bus, and one that the bus refuses
-- faults the CPU, so that the program does not go on.
pub mod Dram
use maps.Prelude.{ℕ, ◌≡◌, refl, Bool, true, false, Option, none, some}
use maps.Bus.{Bus, Store}
use maps.Bus

-- `none`: an NPU run does not end. `(s, none)`: the CPU faulted.
abbrev pub M : Type 0 → Type 0
M A = Store → Option (Store × Option A)

abbrev pub pure : {A : Type 0} → A → M A
pure a s = some (s, some a)

-- What follows an outcome.
abbrev pub after :
    {A B : Type 0} → (A → M B) → Option (Store × Option A) → Option (Store × Option B)
after f none = none
after f (some (s, none)) = some (s, none)
after f (some (s, some a)) = f a s

infixl 5 ◌>>=◌ ◌>>◌
abbrev pub ◌>>=◌ : {A B : Type 0} → M A → (A → M B) → M B
◌>>=◌ m f s = after f (m s)

abbrev pub ◌>>◌ : {B : Type 0} → M (Unit {0}) → M B → M B
m >> k = m >>= λ _. k

-- The answer of the bus to a store, and to a load.
abbrev pub stored : Option (Store × Bool) → Option (Store × Option (Unit {0}))
stored none = none
stored (some (s, true)) = some (s, some tt)
stored (some (s, false)) = some (s, none)

unfoldable pub store32 : Bus → ℕ → ℕ → M (Unit {0})
store32 b addr value s = stored (Bus.write32 b addr value s)

unfoldable pub load32 : Bus → ℕ → M ℕ
load32 b addr s = some (s, Bus.read32 b s addr)

-- The steps of a program may be bracketed either way.
pub after-after :
    {A B C : Type 0} (f : A → M B) (g : B → M C) (o : Option (Store × Option A))
    → after (λ a s. after g (f a s)) o ≡ after g (after f o)
after-after f g none = refl
after-after f g (some (s, none)) = refl
after-after f g (some (s, some a)) = refl
