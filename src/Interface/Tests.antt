-- ===== src/Interface/Tests.antt =====
-- The interface for C at a concrete graph.
use task_bench.Base.{◌≡◌, refl, List, [], ◌∷◌, none, arith}
use task_bench.Base.Int.{ℤ, pos, ◌+ℤ◌, ◌-ℤ◌, max_ℤ, min_ℤ}
use task_bench.Base.Outcome.{ok}
use task_bench.Platform.Sample.{sample_platform}
use task_bench.Graph.{
  Kernel, KernelType, DistType, DependenceType, TaskGraph, dependence_set_at_timestep,
  max_dependence_sets, offset_at_timestep, width_at_timestep,
}
use task_bench.Graph.Deps.{Interval, dependencies, num_dependencies, fill_dependencies}
use task_bench.Kernels.Execute.{execute}
use task_bench.Task.{written}
use task_bench.Task.Validate.{gather}
use task_bench.Interface.{Store, task_graph_dependencies, task_graph_execute_point_scratch_auto}
use task_bench.Interface.Handles.{HandsOut, task_graph_dependencies-HandsOut}
use task_bench.Interface.Prepared.{scratch_auto_accepts}

abbrev kernel : Kernel ℤ
kernel = record {
  kernel_type = KernelType.compute_bound;
  iterations = pos 7;
  samples = pos 4;
  imbalance = pos 0;
  fraction_mem = pos 0;
  dist = record { dist_type = DistType.uniform; max = pos 3; std = pos 0; a = pos 0; b = pos 0 };
}

abbrev graph : TaskGraph ℤ
graph = record {
  graph_index = pos 0;
  timesteps = pos 5;
  max_width = pos 4;
  dependence = DependenceType.stencil_1d;
  radix = pos 3;
  period = pos 0;
  fraction_connected = pos 256;
  kernel = kernel;
  output_bytes_per_task = 16;
  scratch_bytes_per_task = 8;
  nb_fields = pos 5;
  output_bytes_size = none;
  output_case = pos 0;
  onormal_mu = pos 2048;
  onormal_std = pos 2048;
  ogamma_alpha = pos 2048;
  ogamma_beta = pos 2048;
}

abbrev no_vectors : Store
no_vectors = record { next = 4096; live = λ k. none }

stretch : dependencies graph (pos 0) (pos 1) ≡ ok ((pos 0, pos 2) ∷ [])
unfolding dependencies num_dependencies fill_dependencies max_ℤ min_ℤ ◌+ℤ◌ ◌-ℤ◌
stretch = refl

task_graph_dependencies-HandsOut_example :
    HandsOut
      (task_graph_dependencies graph (pos 0) (pos 1) no_vectors)
      ((pos 0, pos 2) ∷ [])
      no_vectors
task_graph_dependencies-HandsOut_example =
    task_graph_dependencies-HandsOut graph (pos 0) (pos 1) ((pos 0, pos 2) ∷ []) no_vectors stretch
      (λ k h. refl)

scratch_auto_accepts_example :
    (dset : ℤ) × (deps : List Interval) × (dependence_set_at_timestep graph (pos 2) ≡ ok dset)
    × (dependencies graph dset (pos 1) ≡ ok deps)
    × (task_graph_execute_point_scratch_auto graph
          (pos 2)
          (pos 1)
          40
          (gather graph (pos 2) (λ dep. 32) deps)
          64
          8
        ≡ ok (written (pos 2) (pos 1) 40, record { rounds = 7; moves = [] }))
unfolding max_dependence_sets offset_at_timestep width_at_timestep execute ◌+ℤ◌
scratch_auto_accepts_example =
    scratch_auto_accepts graph (pos 2) (pos 1) (λ dep. 32) 40 64 (record { rounds = 7; moves = [] })
      (omega arith, omega arith, λ dset low high. tt) (λ dep. omega arith) (omega arith)
      (omega arith) (omega arith) (omega arith) (omega arith) refl refl
