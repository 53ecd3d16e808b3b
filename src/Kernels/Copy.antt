-- ===== src/Kernels/Copy.antt =====
-- core/core_kernel.cc: `copy`, as the `memcpy` calls that it makes (its branch without AVX). An
-- address is a number, and `size_t` wraps around at 2 ^ 64.
pub mod Halves
use task_bench.Base.{
  ℕ, ◌≡◌, ◌+◌, ◌-◌, ◌*◌, ◌/◌, ◌%◌, ◌^◌, ◌≤◌, ◌<◌, List, [], ◌∷◌, if◌then◌else◌, ◌==◌, arith, Bool,
}
use task_bench.Base.Outcome.{Outcome, ok, ◌>>=◌, ◌>>◌, check_that}

-- memcpy(dst, src, size)
pub record Move : Type 0 where
  pub dst : ℕ
  pub src : ℕ
  pub size : ℕ

-- The bytes in front of the next multiple of 32.
unfoldable pub prolog_of : ℕ → ℕ
prolog_of base = if base % 32 == 0 then 0 else 32 - base % 32

-- (scratch_bytes - prolog_padding) / 64 * 64
unfoldable pub aligned_of : ℕ → ℕ → ℕ
aligned_of bytes prolog = (bytes + 2 ^ 64 - prolog) % 2 ^ 64 / 64 * 64

-- The first half of a part that begins at `start`, moved behind itself; nothing of no bytes.
unfoldable pub move_if : ℕ → ℕ → List Move → List Move
move_if start bytes rest =
    if bytes == 0
    then rest
    else (record { dst = start + bytes / 2; src = start; size = bytes / 2 }) ∷ rest

unfoldable pub copy : ℕ → ℕ → Outcome (List Move)
copy base bytes =
    let prolog = prolog_of base in
    let aligned = aligned_of bytes prolog in
    let epilog = (bytes + 2 * 2 ^ 64 - prolog - aligned) % 2 ^ 64 in
    let start = base + prolog in
    do
      check_that (bytes % 2 == 0)
      check_that (base % 2 == 0)
      check_that ((prolog + aligned + epilog) % 2 ^ 64 == bytes)
      check_that (start % 32 == 0)
      check_that ((start + aligned / 2) % 32 == 0)
      ok (
          move_if base prolog (
            (record { dst = start + aligned / 2; src = start; size = aligned / 2 })
            ∷ move_if (start + aligned) epilog []))
