-- ===== src/Kernels/Execute.antt =====
-- core/core_kernel.cc: the kernels, and core/core.cc: `Kernel::execute`. What a run leaves behind is
-- the number of its rounds and the moves in its scratch memory; the values that the kernels compute
-- are dropped by their caller, and only that of the busy wait is modelled.
pub mod Moved
use task_bench.Base.{
  ℕ, zero, suc, ◌+◌, ◌*◌, ◌/◌, ◌%◌, ◌^◌, Bool, true, false, ◌&&◌, List, [], ◌++◌, if◌then◌else◌,
  ltb, ◌==◌,
}
use task_bench.Base.Int.{ℤ, pos, pos_part, ◌+ℤ◌, ◌-ℤ◌, ltb_ℤ, leb_ℤ, eqb_ℤ}
use task_bench.Base.Outcome.{
  Outcome, ok, fault, undefined, aborted, assertion, ◌>>=◌, ◌>>◌, check_that,
}
use task_bench.Platform.{Platform}
use task_bench.Random.{word_of_long}
use task_bench.Graph.{
  Kernel, KernelType, empty, busy_wait, memory_bound, compute_dgemm, memory_daxpy, compute_bound,
  compute_bound2, io_bound, load_imbalance, compute_memory, dist_imbalance,
}
use task_bench.Kernels.Select.{select_imbalance_iterations, select_dist_iterations}
use task_bench.Kernels.Copy.{Move, copy}
use task_bench.Kernels.Memory.{sample_loop}

-- acc = acc * 139 % 2147483647, n times.
unfoldable pub wait_from : ℕ → ℕ → ℕ
wait_from zero acc = acc
wait_from (suc n) acc = wait_from n (acc * 139 % 2147483647)

pub record Work : Type 0 where
  pub rounds : ℕ
  pub moves : List Move

-- The task's scratch memory: its address, if it is not NULL, and its size.
pub record Scratch : Type 0 where
  pub base : ℕ
  pub bytes : ℕ

-- The rounds of a loop up to `iterations`, which moves nothing.
abbrev computed : ℤ → Work
computed iterations = record { rounds = pos_part iterations; moves = [] }

-- `copy(scratch_ptr + start_idx * sample_bytes, num_iter * sample_bytes)`, behind what was moved.
unfoldable pub copy_window : ℕ → ℕ → ℤ → ℤ → List Move → Outcome (List Move)
copy_window base sample_bytes start num_iter moves = do
  more ←
      copy ((base + word_of_long start * sample_bytes) % 2 ^ 64)
        (word_of_long num_iter * sample_bytes % 2 ^ 64)
  ok (moves ++ more)

-- scratch_bytes / samples on `size_t`
unfoldable pub sample_bytes_of : ℕ → ℤ → Outcome ℕ
sample_bytes_of bytes samples =
    if eqb_ℤ samples (pos 0) then fault undefined else ok (bytes / word_of_long samples)

-- `assert(scratch_ptr != NULL); assert(scratch_bytes > 0);`
abbrev with_scratch : Scratch → Outcome Work → Outcome Work
with_scratch scratch run = do check_that (ltb 0 scratch.base); check_that (ltb 0 scratch.bytes); run

-- `assert(timestep >= 0 && point >= 0);`
abbrev with_place : ℤ → ℤ → Outcome Work → Outcome Work
with_place timestep point run = do check_that (leb_ℤ (pos 0) timestep && leb_ℤ (pos 0) point); run

-- A `double` that is out of the range of `int` is undefined behaviour to convert.
abbrev pub int_of_double : ℤ → Outcome ℤ
int_of_double x =
    if ltb_ℤ x (pos (2 ^ 31)) && leb_ℤ (pos 0) (x +ℤ pos (2 ^ 31)) then ok x else fault undefined

-- A `long` keeps its 32 lowest bits in an `int`.
abbrev pub int_of_long : ℤ → ℤ
int_of_long x =
    let w = word_of_long x % 2 ^ 32 in if ltb w (2 ^ 31) then pos w else pos w -ℤ pos (2 ^ 32)

module _ {D : Type 0} ⦃fl : Platform D⦄ where
  unfoldable pub execute_kernel_busy_wait : Kernel D → ℕ
  execute_kernel_busy_wait k = wait_from (pos_part k.iterations) 113

  unfoldable pub execute_kernel_memory : Kernel D → Scratch → ℤ → Outcome Work
  execute_kernel_memory k scratch timestep = do
    sample_bytes ← sample_bytes_of scratch.bytes k.samples
    moves ← sample_loop (copy_window scratch.base sample_bytes) timestep k.iterations k.samples []
    ok (record { rounds = 0; moves = moves })

  unfoldable pub execute_kernel_compute_and_mem : Kernel D → Scratch → ℤ → Outcome Work
  execute_kernel_compute_and_mem k scratch timestep = do
    check_that (
        fl.less_eq k.fraction_mem (fl.of_long (pos 1))
        && fl.less_eq (fl.of_long (pos 0)) k.fraction_mem)
    mem_iter ← int_of_double (fl.to_long (fl.times (fl.of_long k.iterations) k.fraction_mem))
    sample_bytes ← sample_bytes_of scratch.bytes k.samples
    moves ← sample_loop (copy_window scratch.base sample_bytes) timestep mem_iter k.samples []
    ok (record { rounds = pos_part (int_of_long (k.iterations -ℤ mem_iter)); moves = moves })

  -- The switch of `Kernel::execute`, in a build without BLAS.
  execute_of : KernelType → Kernel D → ℤ → ℤ → ℤ → Scratch → Outcome Work
  execute_of empty k graph_index timestep point scratch = ok (computed (pos 0))
  execute_of busy_wait k graph_index timestep point scratch = ok (computed k.iterations)
  execute_of memory_bound k graph_index timestep point scratch =
      with_scratch scratch (execute_kernel_memory k scratch timestep)
  execute_of compute_dgemm k graph_index timestep point scratch =
      with_scratch scratch (fault aborted)
  execute_of memory_daxpy k graph_index timestep point scratch =
      with_scratch scratch (fault aborted)
  execute_of compute_bound k graph_index timestep point scratch = ok (computed k.iterations)
  execute_of compute_bound2 k graph_index timestep point scratch = ok (computed k.iterations)
  execute_of io_bound k graph_index timestep point scratch = fault assertion
  execute_of load_imbalance k graph_index timestep point scratch =
      with_place timestep point
        (select_imbalance_iterations k graph_index timestep point >>= λ n. ok (computed n))
  execute_of dist_imbalance k graph_index timestep point scratch =
      with_place timestep point
        (select_dist_iterations k graph_index timestep point >>= λ n. ok (computed n))
  execute_of compute_memory k graph_index timestep point scratch =
      with_scratch scratch (execute_kernel_compute_and_mem k scratch timestep)

  unfoldable pub execute : Kernel D → ℤ → ℤ → ℤ → Scratch → Outcome Work
  unfolding execute_of
  execute k graph_index timestep point scratch =
      execute_of k.kernel_type k graph_index timestep point scratch
