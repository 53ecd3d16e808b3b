-- ===== src/Cost.antt =====
-- core/core.cc: the FLOPs and bytes of a task, and their sums over a graph. The counts are
-- integers: the overflow of a `long long` is undefined behaviour and is not modelled.
use task_bench.Base.{ℕ, ◌/◌, ◌*◌, ◌%◌, ◌^◌, ltb, if◌then◌else◌}
use task_bench.Random.{word_of_long}
use task_bench.Base.Int.{ℤ, pos, ◌+ℤ◌, ◌-ℤ◌, ◌*ℤ◌, eqb_ℤ}
use task_bench.Base.Outcome.{Outcome, ok, fault, undefined, ◌>>=◌}
use task_bench.Base.Loops.{for_below}
use task_bench.Platform.{Platform}
use task_bench.Kernels.Select.{select_imbalance_iterations, select_dist_iterations}
use task_bench.Graph.{
  TaskGraph, KernelType, empty, busy_wait, memory_bound, compute_dgemm, memory_daxpy, compute_bound,
  compute_bound2, io_bound, load_imbalance, compute_memory, dist_imbalance, offset_at_timestep,
  width_at_timestep,
}

-- 2 * 64 * iterations + 64
unfoldable pub compute_flops : ℤ → ℤ
compute_flops iterations = pos 128 *ℤ iterations +ℤ pos 64

-- scratch_bytes_per_task * iterations on `size_t`
abbrev pub scratch_product : ℕ → ℤ → ℕ
scratch_product bytes iterations = bytes * word_of_long iterations % 2 ^ 64

-- The `long long` of a `size_t`.
abbrev pub long_of_word : ℕ → ℤ
long_of_word w = if ltb w (2 ^ 63) then pos w else pos w -ℤ pos (2 ^ 64)

-- A `size_t` over the samples, which are converted to one.
abbrev pub over_samples : ℕ → ℤ → Outcome ℤ
over_samples product samples =
    if eqb_ℤ samples (pos 0)
    then fault undefined
    else ok (long_of_word (product / word_of_long samples))

module _ {D : Type 0} ⦃fl : Platform D⦄ where
  unfoldable pub flops_of : KernelType → TaskGraph D → ℤ → ℤ → Outcome ℤ
  flops_of empty g timestep point = ok (pos 0)
  flops_of busy_wait g timestep point = ok (pos 0)
  flops_of memory_bound g timestep point = ok (pos 0)
  flops_of compute_dgemm g timestep point =
      let n = fl.to_long (fl.sqrt (fl.of_long (pos (g.scratch_bytes_per_task / 24)))) in
      ok (pos 2 *ℤ n *ℤ n *ℤ n *ℤ g.kernel.iterations)
  flops_of memory_daxpy g timestep point = ok (pos 0)
  flops_of compute_bound g timestep point = ok (compute_flops g.kernel.iterations)
  flops_of compute_bound2 g timestep point = ok (pos 64 *ℤ g.kernel.iterations)
  flops_of io_bound g timestep point = ok (pos 0)
  flops_of load_imbalance g timestep point = do
    iterations ← select_imbalance_iterations g.kernel g.graph_index timestep point
    ok (compute_flops iterations)
  flops_of dist_imbalance g timestep point = do
    iterations ← select_dist_iterations g.kernel g.graph_index timestep point
    ok (compute_flops iterations)
  flops_of compute_memory g timestep point = ok (
      fl.to_long (
        fl.plus
          (fl.times (fl.of_long (pos 128 *ℤ g.kernel.iterations))
            (fl.minus (fl.of_long (pos 1)) g.kernel.fraction_mem))
          (fl.of_long (pos 64))))

  unfoldable pub count_flops_per_task : TaskGraph D → ℤ → ℤ → Outcome ℤ
  count_flops_per_task g timestep point = flops_of g.kernel.kernel_type g timestep point

  -- `scratch_bytes_per_task * iterations` is a `size_t`.
  unfoldable pub bytes_of_kernel : KernelType → TaskGraph D → Outcome ℤ
  bytes_of_kernel empty g = ok (pos 0)
  bytes_of_kernel busy_wait g = ok (pos 0)
  bytes_of_kernel memory_bound g =
      over_samples (scratch_product g.scratch_bytes_per_task g.kernel.iterations) g.kernel.samples
  bytes_of_kernel memory_daxpy g =
      over_samples (scratch_product g.scratch_bytes_per_task g.kernel.iterations) g.kernel.samples
  bytes_of_kernel compute_memory g = ok (
      fl.to_long (
        fl.over
          (fl.times
            (fl.of_long (pos (scratch_product g.scratch_bytes_per_task g.kernel.iterations)))
            g.kernel.fraction_mem)
          (fl.of_long g.kernel.samples)))
  bytes_of_kernel _ g = ok (pos 0)

  unfoldable pub count_bytes_per_task : TaskGraph D → ℤ → ℤ → Outcome ℤ
  count_bytes_per_task g timestep point = bytes_of_kernel g.kernel.kernel_type g

  -- The two loops of `count_flops` and `count_bytes`, over every point of every timestep.
  unfoldable pub sum_row : (ℤ → ℤ → Outcome ℤ) → TaskGraph D → ℤ → ℤ → Outcome ℤ
  sum_row per_task g timestep acc =
      let offset = offset_at_timestep g timestep in
      for_below offset (offset +ℤ width_at_timestep g timestep)
        (λ point sum. per_task timestep point >>= λ n. ok (sum +ℤ n)) acc

  unfoldable pub sum_tasks : (ℤ → ℤ → Outcome ℤ) → TaskGraph D → Outcome ℤ
  sum_tasks per_task g =
      for_below (pos 0) g.timesteps (λ timestep sum. sum_row per_task g timestep sum) (pos 0)

  unfoldable pub count_flops : TaskGraph D → Outcome ℤ
  count_flops g = sum_tasks (count_flops_per_task g) g

  unfoldable pub count_bytes : TaskGraph D → Outcome ℤ
  count_bytes g = sum_tasks (count_bytes_per_task g) g
