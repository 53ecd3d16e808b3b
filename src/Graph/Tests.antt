-- ===== src/Graph/Tests.antt =====
-- Runs of the task graph's functions, and the theorems of its modules at concrete graphs.
use task_bench.Base.{◌≡◌, refl, [], ◌∷◌, none, arith, List, length}
use task_bench.Base.Int.{ℤ, pos, ◌+ℤ◌, ◌-ℤ◌, ◌*ℤ◌, ◌/ℤ◌, ◌%ℤ◌, ◌≤ℤ◌, ◌<ℤ◌}
use task_bench.Base.Outcome.{ok}
use task_bench.Platform.Sample.{sample_platform}
use task_bench.Graph.{
  DependenceType, TaskGraph, Kernel, KernelType, DistType, fft, dom, spread, random_nearest,
  offset_at_timestep, width_at_timestep, max_dependence_sets, dependence_set_at_timestep,
  timestep_period,
}
use task_bench.Graph.Deps.{
  dependencies, reverse_dependencies, num_dependencies, num_reverse_dependencies, fill_dependencies,
  fill_reverse_dependencies, spread_loop, spread_dep, spread_reverse_dep,
}
use task_bench.Graph.Deps.Count.{count}
use task_bench.Graph.Deps.Mirror.{mirror}
use task_bench.Graph.Deps.Buffer.{dependencies_fit, reverse_dependencies_fit}
use task_bench.Graph.Deps.Buffer.Within.{AllWithin}
use task_bench.Graph.Shape.{row_bounds, dependence_set_bounds, dependence_set_periodic}

abbrev kernel : Kernel ℤ
kernel = record {
  kernel_type = KernelType.empty;
  iterations = pos 0;
  samples = pos 16;
  imbalance = pos 0;
  fraction_mem = pos 0;
  dist = record { dist_type = DistType.uniform; max = pos 0; std = pos 0; a = pos 0; b = pos 0 };
}

abbrev graph_of : DependenceType → TaskGraph ℤ
graph_of t = record {
  graph_index = pos 0;
  timesteps = pos 9;
  max_width = pos 8;
  dependence = t;
  radix = pos 3;
  period = pos 2;
  fraction_connected = pos 256;
  kernel = kernel;
  output_bytes_per_task = 16;
  scratch_bytes_per_task = 0;
  nb_fields = pos 9;
  output_bytes_size = none;
  output_case = pos 0;
  onormal_mu = pos 2048;
  onormal_std = pos 2048;
  ogamma_alpha = pos 2048;
  ogamma_beta = pos 2048;
}

spread_run :
    dependencies (graph_of spread) (pos 1) (pos 1)
    ≡ ok ((pos 1, pos 1) ∷ (pos 4, pos 4) ∷ (pos 7, pos 7) ∷ [])
unfolding dependencies num_dependencies fill_dependencies spread_loop spread_dep ◌+ℤ◌ ◌*ℤ◌ ◌/ℤ◌ ◌%ℤ◌
spread_run = refl

spread_reverse_run :
    reverse_dependencies (graph_of spread) (pos 1) (pos 4)
    ≡ ok ((pos 4, pos 4) ∷ (pos 1, pos 1) ∷ (pos 6, pos 6) ∷ [])
unfolding reverse_dependencies num_reverse_dependencies fill_reverse_dependencies spread_loop
    spread_reverse_dep ◌+ℤ◌ ◌-ℤ◌ ◌*ℤ◌ ◌/ℤ◌ ◌%ℤ◌
spread_reverse_run = refl

mirror_example :
    count (pos 4) ((pos 1, pos 1) ∷ (pos 4, pos 4) ∷ (pos 7, pos 7) ∷ [])
    ≡ count (pos 1) ((pos 4, pos 4) ∷ (pos 1, pos 1) ∷ (pos 6, pos 6) ∷ [])
mirror_example =
    mirror (graph_of spread) (pos 1) (pos 1) (pos 4) (omega arith) (omega arith) (omega arith)
      (omega arith) spread_run spread_reverse_run

row_bounds_example :
    (pos 0 ≤ℤ offset_at_timestep (graph_of dom) (pos 3))
    × (pos 0 <ℤ width_at_timestep (graph_of dom) (pos 3))
    × (offset_at_timestep (graph_of dom) (pos 3) +ℤ width_at_timestep (graph_of dom) (pos 3)
        ≤ℤ pos 8)
row_bounds_example = row_bounds (graph_of dom) (pos 3) (omega arith) (omega arith) (omega arith)

dependence_set_bounds_example :
    (d : ℤ) × (dependence_set_at_timestep (graph_of spread) (pos 5) ≡ ok d)
    × (pos 0 ≤ℤ d)
    × (d <ℤ max_dependence_sets (graph_of spread))
unfolding max_dependence_sets
dependence_set_bounds_example =
    dependence_set_bounds (graph_of spread) (pos 5) (omega arith) (omega arith)

dependence_set_periodic_example :
    dependence_set_at_timestep (graph_of spread) (pos 5 +ℤ timestep_period (graph_of spread))
    ≡ dependence_set_at_timestep (graph_of spread) (pos 5)
unfolding max_dependence_sets
dependence_set_periodic_example =
    dependence_set_periodic (graph_of spread) (pos 5) (omega arith) (omega arith)

abbrev narrow : TaskGraph ℤ
narrow = record (graph_of fft) { max_width = pos 1 }

dependencies_fit_example :
    (deps : List (ℤ × ℤ)) × (n : ℤ) × (dependencies (graph_of random_nearest) (pos 1) (pos 4)
      ≡ ok deps)
    × (num_dependencies (graph_of random_nearest) ≡ ok n)
    × (pos (length deps) ≤ℤ n)
    × AllWithin (pos 8) deps
dependencies_fit_example =
    dependencies_fit (graph_of random_nearest) (pos 1) (pos 4) (omega arith) (omega arith)

reverse_dependencies_fit_example :
    (deps : List (ℤ × ℤ)) × (n : ℤ) × (reverse_dependencies
        (graph_of random_nearest)
        (pos 1)
        (pos 4)
      ≡ ok deps)
    × (num_reverse_dependencies (graph_of random_nearest) ≡ ok n)
    × (pos (length deps) ≤ℤ n)
    × AllWithin (pos 8) deps
reverse_dependencies_fit_example =
    reverse_dependencies_fit (graph_of random_nearest) (pos 1) (pos 4) (omega arith) (omega arith)
