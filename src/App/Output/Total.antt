-- ===== src/App/Output/Total.antt =====
-- `allocate_bytes`: the bytes of a row, whatever its points have drawn.
use task_bench.Base.{ℕ, ◌≡◌, ◌≤◌, List, length}
use task_bench.Platform.{Platform}
use task_bench.App.Output.{sum}

-- Counts that have this many points and at most this many rolls.
abbrev Rolled : ℕ → ℕ → List ℕ → Type 0
Rolled n most p = (length p ≡ n) × (sum p ≤ most)
