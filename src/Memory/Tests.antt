-- ===== src/Memory/Tests.antt =====
-- The memory at concrete inputs.
use maps.Prelude.{ℕ, ◌+◌, ◌<◌, ◌≡◌, ◌≢◌, List, true, get_or, arith, some, [], ◌∷◌}
use maps.Memory.{Memory, load, dump}
use maps.Memory.Transfer.{dump-load}

abbrev three_words : Memory
three_words = record { words = 7 ∷ 8 ∷ 9 ∷ [] }

dump-load_example :
    (m' : Memory) × (out : List ℕ) × (load three_words 1 (some (4 ∷ 5 ∷ [])) 2 ≡ (m', true))
    × (dump m' 1 (some (0 ∷ 0 ∷ [])) 2 ≡ (some out, true))
    × ((k : ℕ) → k < 2 → get_or out k 0 ≡ get_or (4 ∷ 5 ∷ []) k 0)
    × ((x : ℕ) → ((k : ℕ) → k < 2 → x ≢ 1 + k) → get_or m'.words x 0 ≡ get_or three_words.words x 0)
dump-load_example =
    dump-load three_words 1 (4 ∷ 5 ∷ []) (0 ∷ 0 ∷ []) 2 (omega arith) (omega arith) (omega arith)
