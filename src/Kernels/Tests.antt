-- ===== src/Kernels/Tests.antt =====
-- The theorems of the kernels at concrete inputs.
use task_bench.Base.{ℕ, ◌≡◌, refl, ◌+◌, ◌*◌, none, arith}
use task_bench.Base.Int.{ℤ, pos, pos_part, ◌≤ℤ◌}
use task_bench.Base.Outcome.{Outcome, ok}
use task_bench.Base.Loops.{Returns}
use task_bench.Platform.Sample.{sample_platform}
use task_bench.Graph.{Kernel, KernelType, DistType, DependenceType, TaskGraph}
use task_bench.Cost.{count_bytes_per_task}
use task_bench.Kernels.Select.{select_dist_iterations, select_dist_iterations_total}
use task_bench.Kernels.Copy.{copy, prolog_of}
use task_bench.Kernels.Copy.Halves.{moved, AllInside, copy_moves_half}
use task_bench.Kernels.Memory.{sample_loop}
use task_bench.Kernels.Memory.Windows.{sample_loop_covers}
use task_bench.Kernels.Execute.{Scratch, execute_kernel_memory}
use task_bench.Kernels.Execute.Moved.{count_bytes-moved}

abbrev memory_kernel : Kernel ℤ
memory_kernel = record {
  kernel_type = KernelType.memory_bound;
  iterations = pos 10;
  samples = pos 4;
  imbalance = pos 0;
  fraction_mem = pos 0;
  dist = record { dist_type = DistType.uniform; max = pos 3; std = pos 0; a = pos 0; b = pos 0 };
}

abbrev memory_graph : TaskGraph ℤ
memory_graph = record {
  graph_index = pos 0;
  timesteps = pos 5;
  max_width = pos 3;
  dependence = DependenceType.trivial;
  radix = pos 3;
  period = pos 0;
  fraction_connected = pos 256;
  kernel = memory_kernel;
  output_bytes_per_task = 16;
  scratch_bytes_per_task = 512;
  nb_fields = pos 5;
  output_bytes_size = none;
  output_case = pos 0;
  onormal_mu = pos 2048;
  onormal_std = pos 2048;
  ogamma_alpha = pos 2048;
  ogamma_beta = pos 2048;
}

-- An address that is not a multiple of 32.
abbrev scratch : Scratch
scratch = record { base = 4104; bytes = 512 }

select_dist_iterations_total_example :
    (n : ℤ) × (select_dist_iterations memory_kernel (pos 0) (pos 1) (pos 2) ≡ ok n) × (pos 0 ≤ℤ n)
select_dist_iterations_total_example =
    select_dist_iterations_total memory_kernel (pos 0) (pos 1) (pos 2)

copy_moves_half_example :
    Returns (copy 4104 512) (λ moves. (moved moves * 2 ≡ 512) × AllInside 4104 512 moves)
unfolding prolog_of
copy_moves_half_example = copy_moves_half 4104 512 refl refl (omega arith) (omega arith)

-- A visit that counts the iterations it makes.
abbrev count_visit : ℤ → ℤ → ℕ → Outcome ℕ
count_visit start num_iter done = ok (done + pos_part num_iter)

sample_loop_covers_example :
    Returns (sample_loop count_visit (pos 3) (pos 10) (pos 4) 0) (λ done. done ≡ 10)
sample_loop_covers_example =
    sample_loop_covers count_visit 3 10 4 (λ i done. done ≡ i) (omega arith)
      (λ start num iter done e some_left inside few p. (done + num, refl, omega (arith, p))) 0 refl

count_bytes-moved_example : Returns (execute_kernel_memory memory_kernel scratch (pos 3)) (λ work.
    (count_bytes_per_task memory_graph (pos 3) (pos 1) ≡ ok (pos (moved work.moves * 2)))
    × AllInside 4104 512 work.moves)
count_bytes-moved_example =
    count_bytes-moved memory_graph scratch 4 10 3 (pos 1) refl refl refl refl (omega arith) refl
      refl refl (omega arith) (omega arith) (omega arith)
