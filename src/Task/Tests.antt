-- ===== src/Task/Tests.antt =====
-- The body of a task at a concrete task.
use task_bench.Base.{◌≡◌, refl, List, [], ◌∷◌, none, arith}
use task_bench.Base.Int.{ℤ, pos, ◌+ℤ◌, ◌-ℤ◌, max_ℤ, min_ℤ}
use task_bench.Base.Outcome.{ok}
use task_bench.Platform.Sample.{sample_platform}
use task_bench.Graph.{
  Kernel, KernelType, DistType, DependenceType, TaskGraph, dependence_set_at_timestep,
  offset_at_timestep, width_at_timestep, max_dependence_sets,
}
use task_bench.Graph.Deps.{Interval, dependencies, num_dependencies, fill_dependencies}
use task_bench.Kernels.Execute.{Scratch, Work, execute}
use task_bench.Base.Loops.{for_each, for_range}
use task_bench.Task.Detects.{AllRead, last_points, execute_point-AllRead}
use task_bench.Task.{
  Input, check_inputs, check_dep, check_input, check_pairs, check_scratch, in_last_row, written,
  execute_point,
}
use task_bench.Task.Validate.{gather}
use task_bench.Task.Accepts.{execute_point-gather}

abbrev kernel : Kernel ℤ
kernel = record {
  kernel_type = KernelType.compute_bound;
  iterations = pos 7;
  samples = pos 4;
  imbalance = pos 0;
  fraction_mem = pos 0;
  dist = record { dist_type = DistType.uniform; max = pos 3; std = pos 0; a = pos 0; b = pos 0 };
}

abbrev graph : TaskGraph ℤ
graph = record {
  graph_index = pos 0;
  timesteps = pos 5;
  max_width = pos 4;
  dependence = DependenceType.stencil_1d;
  radix = pos 3;
  period = pos 0;
  fraction_connected = pos 256;
  kernel = kernel;
  output_bytes_per_task = 16;
  scratch_bytes_per_task = 8;
  nb_fields = pos 5;
  output_bytes_size = none;
  output_case = pos 0;
  onormal_mu = pos 2048;
  onormal_std = pos 2048;
  ogamma_alpha = pos 2048;
  ogamma_beta = pos 2048;
}

abbrev scratch : Scratch
scratch = record { base = 64; bytes = 8 }

abbrev work : Work
work = record { rounds = 7; moves = [] }

execute_point-gather_example :
    (dset : ℤ) × (deps : List Interval) × (dependence_set_at_timestep graph (pos 2) ≡ ok dset)
    × (dependencies graph dset (pos 1) ≡ ok deps)
    × (execute_point graph
          (pos 2)
          (pos 1)
          40
          (gather graph (pos 2) (λ dep. 32) deps)
          scratch
          1548385419
        ≡ ok (written (pos 2) (pos 1) 40, work))
unfolding max_dependence_sets offset_at_timestep width_at_timestep execute ◌+ℤ◌
execute_point-gather_example =
    execute_point-gather graph (pos 2) (pos 1) (λ dep. 32) 40 scratch 1548385419 work
      (omega arith, omega arith, λ dset low high. tt) (λ dep. omega arith) (omega arith)
      (omega arith) (omega arith) (omega arith) (omega arith) refl (λ some_bytes. refl) refl

-- The inputs of point 0 at timestep 1.
abbrev first_inputs : List Input
first_inputs =
    (record { bytes = 16; pairs = (pos 0, pos 0) ∷ [] })
    ∷ (record { bytes = 40; pairs = (pos 0, pos 1) ∷ (pos 0, pos 1) ∷ [] })
    ∷ []

first_run :
    execute_point graph (pos 1) (pos 0) 16 first_inputs scratch 1548385419
    ≡ ok ((pos 1, pos 0) ∷ [], work)
unfolding execute_point check_inputs check_dep check_input check_pairs check_scratch written
    in_last_row execute dependence_set_at_timestep offset_at_timestep width_at_timestep dependencies
    num_dependencies fill_dependencies for_each for_range max_ℤ min_ℤ ◌+ℤ◌ ◌-ℤ◌
first_run = refl

execute_point-AllRead_example :
    (dset : ℤ) × (deps : List Interval) × (dependence_set_at_timestep graph (pos 1) ≡ ok dset)
    × (dependencies graph dset (pos 0) ≡ ok deps)
    × AllRead (pos 1) first_inputs 0 (last_points graph (pos 1) deps)
    × (((pos 1, pos 0) ∷ []) ≡ written (pos 1) (pos 0) 16)
execute_point-AllRead_example =
    execute_point-AllRead graph (pos 1) first_inputs (pos 0) 16 scratch 1548385419 first_run
