-- ===== src/Mpi/Rank/Bytes.antt =====
-- The memory of a rank, byte by byte: its words, and what the kernels' `memcpy` leaves. A word is in
-- the order of a little-endian machine.
use task_bench.Base.{ℕ, zero, suc, ◌+◌, ◌-◌, ◌*◌, List, [], ◌∷◌, ◌&&◌, if◌then◌else◌, leb, ltb}
use task_bench.Kernels.Copy.{Move}

unfoldable pub word_from : ℕ → (ℕ → ℕ) → ℕ → ℕ
word_from zero memory address = 0
word_from (suc n) memory address = memory address + 256 * word_from n memory (suc address)

-- *reinterpret_cast<uint64_t *>(scratch_ptr)
abbrev pub word_at : (ℕ → ℕ) → ℕ → ℕ
word_at memory address = word_from 8 memory address

-- memcpy(dst, src, size)
unfoldable pub run_move : Move → (ℕ → ℕ) → ℕ → ℕ
run_move move memory address =
    if leb move.dst address && ltb address (move.dst + move.size)
    then memory (move.src + (address - move.dst))
    else memory address

unfoldable pub run_moves : List Move → (ℕ → ℕ) → ℕ → ℕ
run_moves [] memory = memory
run_moves (move ∷ rest) memory = run_moves rest (run_move move memory)
