-- ===== src/Kernels/Memory.antt =====
-- core/core_kernel.cc: the windows of samples that `execute_kernel_memory` and
-- `execute_kernel_compute_and_mem` visit: prologue, body and epilogue, with what is done at each
-- window as a parameter.
pub mod Windows
use task_bench.Base.{
  ℕ, zero, suc, ◌≡◌, refl, ◌+◌, ◌*◌, ◌%◌, ◌≤◌, ◌<◌, if◌then◌else◌, true, false, arith,
}
use task_bench.Base.Int.{ℤ, pos, pos_part, ◌+ℤ◌, ◌-ℤ◌, ◌*ℤ◌, ◌%ℤ◌, ltb_ℤ, leb_ℤ, eqb_ℤ, min_ℤ, ◌≤ℤ◌}
use task_bench.Base.Outcome.{Outcome, ok, fault, undefined, ◌>>=◌, ◌>>◌, check_that}

-- (timestep * iterations + iter) % samples
unfoldable pub start_idx : ℤ → ℤ → ℤ → ℤ → ℤ
start_idx timestep iterations samples iter = (timestep *ℤ iterations +ℤ iter) %ℤ samples

module _ {S : Type 0} (visit : ℤ → ℤ → S → Outcome S) (timestep iterations samples : ℤ) where
  -- `if (num_iter > 0) { copy(...); iter += num_iter; }`
  unfoldable pub visit_some : ℤ → ℤ → ℤ → S → Outcome (ℤ × S)
  visit_some start num_iter iter s =
      if ltb_ℤ (pos 0) num_iter
      then (do s' ← visit start num_iter s; ok (iter +ℤ num_iter, s'))
      else ok (iter, s)

  unfoldable pub prologue : S → Outcome (ℤ × S)
  prologue s =
      let start = start_idx timestep iterations samples (pos 0) in
      let stop = min_ℤ samples (start +ℤ iterations) in visit_some start (stop -ℤ start) (pos 0) s

  -- The loop of the body. With samples above zero it ends within `iterations` rounds; a loop that
  -- goes on for ever is undefined.
  unfoldable pub body : ℕ → ℤ → S → Outcome (ℤ × S)
  body zero iter s = if leb_ℤ (iter +ℤ samples) iterations then fault undefined else ok (iter, s)
  body (suc fuel) iter s =
      if leb_ℤ (iter +ℤ samples) iterations
      then (visit (start_idx timestep iterations samples iter) samples s >>= λ s'.
          body fuel (iter +ℤ samples) s')
      else ok (iter, s)

  unfoldable pub epilogue : ℤ → S → Outcome (ℤ × S)
  epilogue iter s =
      let start = start_idx timestep iterations samples iter in
      let stop = start +ℤ (iterations -ℤ iter) in visit_some start (stop -ℤ start) iter s

  unfoldable pub sample_loop : S → Outcome S
  sample_loop s = do
    (iter, s1) ← prologue s
    (iter', s2) ← body (pos_part iterations) iter s1
    (iter'', s3) ← epilogue iter' s2
    check_that (eqb_ℤ iter'' iterations)
    ok s3
