-- ===== src/App/Check/Tests.antt =====
-- `App::check` at a concrete graph.
use task_bench.Base.{refl, ◌≡◌, ◌+◌, ◌≤◌, Bool, true, false, subst, arith}
use task_bench.Base.Int.{ℤ, pos, ◌-ℤ◌}
use task_bench.Base.Outcome.{ok, ok-injective}
use task_bench.Platform.Sample.{sample_platform}
use task_bench.Graph.{TaskGraph, all_to_all, nearest, max_dependence_sets}
use task_bench.Graph.Deps.{dependencies, num_dependencies, fill_dependencies}
use task_bench.Graph.Deps.Count.{count, within, one_if}
use task_bench.App.Parse.State.{default_graph}
use task_bench.App.Check.{check_set, check_graph}
use task_bench.App.Check.Graphs.{check_graph-accepts}
use task_bench.App.Check.Accepts.{NoneTwice, check_set-accepts}

abbrev dense_graph : TaskGraph ℤ
dense_graph = record (default_graph 0) { dependence = all_to_all; max_width = pos 8 }

dense_graph-NoneTwice : NoneTwice dense_graph (pos 0) tt
unfolding dependencies num_dependencies fill_dependencies default_graph ◌-ℤ◌
dense_graph-NoneTwice p b deps inside call =
    subst (λ ds. count b ds ≤ 1) (ok-injective call) (at_most (within b (pos 0, pos 7)))
  where
    at_most : (x : Bool) → one_if x + 0 ≤ 1
    at_most true = omega arith
    at_most false = omega arith

check_set-accepts_example : check_set dense_graph (pos 0) ≡ ok tt
unfolding default_graph
check_set-accepts_example =
    check_set-accepts dense_graph (pos 0) tt (omega arith) (omega arith) (omega arith)
      dense_graph-NoneTwice

abbrev nearest_graph : TaskGraph ℤ
nearest_graph = record (default_graph 0) { dependence = nearest; max_width = pos 8; period = pos 0 }

check_graph-accepts_example : check_graph nearest_graph ≡ ok tt
unfolding default_graph max_dependence_sets
check_graph-accepts_example =
    check_graph-accepts nearest_graph (omega arith, omega arith, λ dset low high. tt) (omega arith)
      (omega arith) refl tt
