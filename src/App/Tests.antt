-- ===== src/App/Tests.antt =====
-- Runs of the application's functions, and the theorems of its modules at concrete inputs.
use Prim.Native.String.{String}
use task_bench.Base.{some, ◌≡◌, refl, [], ◌∷◌, arith, List, some, true, ◌&&◌}
use task_bench.Base.Int.{ℤ, pos, ◌+ℤ◌, ◌-ℤ◌, ◌*ℤ◌, ◌/ℤ◌, ◌≤ℤ◌, max_ℤ, min_ℤ}
use task_bench.Base.Outcome.{Outcome, ok, fault, aborted}
use task_bench.Base.Loops.{Returns, for_each, for_range}
use task_bench.Platform.Sample.{sample_platform}
use task_bench.Graph.{KernelType, TaskGraph, fft, spread, max_dependence_sets, needs_period}
use task_bench.Graph.Deps.Count.{count, within, one_if}
use task_bench.App.{App}
use task_bench.App.Names.{
  name_by_dtype, name_by_ktype, find_name, dtype_by_name, ktype_by_name, find_name-name_by_dtype,
  find_name-name_by_ktype,
}
use task_bench.App.Parse.{
  parse_app, parse_args, parse_loop, parse_rest, parse_argument, finish, check_distribution,
  default_fields,
}
use task_bench.App.Parse.State.{
  on, next_argument, take_next, value_flag, name_flag, store_found, default_graph, default_period,
}
use task_bench.App.Parse.Flags.{
  all_flags, general_flags, graph_flags, kernel_flags, output_flags, dist_flags, push_graph,
}
use task_bench.App.Parse.Valid.{AllParsed, parse_app-AllParsed}
use task_bench.App.Output.{allocate_bytes}
use task_bench.Graph.{offset_at_timestep, width_at_timestep, dependence_set_at_timestep}
use task_bench.Graph.Deps.{
  dependencies, reverse_dependencies, num_dependencies, num_reverse_dependencies, fill_dependencies,
  fill_reverse_dependencies, tree_children,
}
use task_bench.App.Check.{
  check, check_graph, check_row, check_set, check_reverse_point, materialize, materialize_point,
  insert_dep, has_dep,
}
use task_bench.App.Construct.{construct, AllConstructed, construct-AllConstructed}
use task_bench.App.Report.{tally_graph, clamp, size_of}
use task_bench.App.Report.Partition.{clamp_lem}
use task_bench.App.Report.Counts.{tally_graph_splits, IsSplit}

abbrev args : List String
args =
    "-steps" ∷ "2" ∷ "-width" ∷ "3" ∷ "-type" ∷ "stencil_1d" ∷ "-and" ∷ "-type" ∷ "spread" ∷ "-v"
    ∷ "-radix" ∷ "2" ∷ "-period" ∷ "2" ∷ []

abbrev value_of {ℓ} : {A : Type ℓ} → A → Outcome A → A
value_of a (ok b) = b
value_of a (fault e) = a

abbrev no_app : App ℤ
no_app = record { graphs = []; nodes = pos 0; verbose = pos 0; enable_graph_validation = true }

abbrev parsed : App ℤ
parsed = value_of no_app (parse_app args)

parsed_run : parse_app args ≡ ok parsed
unfolding parse_app parse_args parse_loop parse_rest parse_argument finish check_distribution
    default_fields on next_argument take_next value_flag name_flag store_found default_graph
    default_period all_flags general_flags graph_flags kernel_flags output_flags dist_flags
    push_graph for_each find_name allocate_bytes sample_platform needs_period
parsed_run = refl

parse_app-AllParsed_example : AllParsed parsed.graphs
parse_app-AllParsed_example = parse_app-AllParsed args parsed_run

-- The text behind a flag is tested against the flags that follow: `-kernel` is read both as the
-- fraction, which is then zero, and as a flag.
twice_read : parse_app {D = ℤ} ("-fraction" ∷ "-kernel" ∷ []) ≡ fault aborted
unfolding parse_app parse_args parse_loop parse_rest parse_argument finish check_distribution
    default_fields on next_argument take_next value_flag name_flag store_found default_graph
    default_period all_flags general_flags graph_flags kernel_flags output_flags dist_flags
    push_graph for_each find_name allocate_bytes sample_platform needs_period
twice_read = refl

find_name-name_by_dtype_example :
    (name : String) × (name_by_dtype fft ≡ some name) × (find_name name dtype_by_name ≡ some fft)
find_name-name_by_dtype_example = find_name-name_by_dtype fft

find_name-name_by_ktype_example :
    (name : String) × (name_by_ktype KernelType.compute_memory ≡ some name)
    × (find_name name ktype_by_name ≡ some KernelType.compute_memory)
find_name-name_by_ktype_example = find_name-name_by_ktype KernelType.compute_memory

clamp_lem_example :
    ((q : ℤ)
      → count q (clamp (pos 1) (pos 5) (pos 3) (pos 9) ∷ [])
        ≡ one_if (within q (pos 1, pos 5) && within q (pos 3, pos 9)))
    × (pos 0 ≤ℤ size_of (clamp (pos 1) (pos 5) (pos 3) (pos 9)))
unfolding ◌+ℤ◌
clamp_lem_example = clamp_lem (pos 1) (pos 5) (pos 3) (pos 9) (omega arith) (omega arith)

abbrev spread_graph : TaskGraph ℤ
spread_graph = record (default_graph 0) { dependence = spread; max_width = pos 8; period = pos 2 }

tally_graph_splits_example : Returns (tally_graph (pos 3) spread_graph) IsSplit
unfolding max_dependence_sets default_graph
tally_graph_splits_example =
    tally_graph_splits (pos 3) spread_graph (omega arith)
      (omega arith, omega arith, λ dset h k. (h, omega arith)) (omega arith)

abbrev drawn_graph : TaskGraph ℤ
drawn_graph = record (default_graph 0) { output_bytes_per_task = 64; output_case = pos 1 }

abbrev few_args : List String
few_args = "-steps" ∷ "2" ∷ "-width" ∷ "2" ∷ "-type" ∷ "tree" ∷ []

abbrev constructed : App ℤ
constructed = value_of no_app (construct few_args)

constructed_run : construct few_args ≡ ok constructed
unfolding construct parse_app parse_args parse_loop parse_rest parse_argument finish
    check_distribution default_fields on next_argument take_next value_flag name_flag store_found
    default_graph default_period all_flags general_flags graph_flags kernel_flags output_flags
    dist_flags push_graph for_each find_name allocate_bytes sample_platform needs_period check
    check_graph check_row check_set check_reverse_point materialize materialize_point insert_dep
    has_dep dependencies reverse_dependencies num_dependencies num_reverse_dependencies
    fill_dependencies fill_reverse_dependencies tree_children for_range offset_at_timestep
    width_at_timestep max_dependence_sets dependence_set_at_timestep ◌+ℤ◌ ◌-ℤ◌ ◌*ℤ◌ ◌/ℤ◌ max_ℤ min_ℤ
constructed_run = refl

construct-AllConstructed_example : AllConstructed constructed.graphs
construct-AllConstructed_example = construct-AllConstructed few_args constructed_run
